-- ===== src/Expiration/Consumer/Loop/Order.antt =====
-- Which messages the loop handles.
use polyglot_ticketing_v.Base.{
  ◌≡◌, refl, sym, ◌∙◌, ap, true, false, List, [], ◌∷◌, ◌++◌, map, All, All-split, ok, err,
}
use mathlib.Core.List.{append-nil, map-append}
use polyglot_ticketing_v.Expiration.Effects.{Effect, Run}
use polyglot_ticketing_v.Expiration.Handler.{Decoder}
use polyglot_ticketing_v.Expiration.Consumer.Settling.{safe_from, handle_delivery-safe}
use polyglot_ticketing_v.Expiration.Consumer.Loop.{
  Incoming, Round, handle_incoming, then_rest, handle_all, received, run_round, consume,
}

abbrev pub received_in : Round → List Incoming
received_in r = received r.consumer r.messages r.incoming

abbrev pub all_received : List Round → List Incoming
all_received [] = []
all_received (r ∷ rounds) = received_in r ++ all_received rounds

-- No shutdown in a round.
abbrev pub Runs : Round → Type 0
Runs r = r.stopped ≡ false

module _ (decoder : Decoder) where
  abbrev pub log_of : Incoming → List Effect
  log_of d = (handle_incoming decoder d).1

  -- The handling of a message returns.
  abbrev pub Returns : Incoming → Type 0
  Returns d = (handle_incoming decoder d).0 ≡ ok tt

  then_rest-ok :
      (r : Run (Unit {0})) (rest : List (List Effect)) → r.0 ≡ ok tt → then_rest r rest ≡ r.1 ∷ rest
  then_rest-ok (ok done, log) rest e = refl
  then_rest-ok (err f, log) rest e = cc

  handle_all_lem : (ds : List Incoming) → All Returns ds → handle_all decoder ds ≡ map log_of ds
  unfolding handle_all
  handle_all_lem [] h = refl
  handle_all_lem (d ∷ ds) (here, rest) =
      then_rest-ok (handle_incoming decoder d) (handle_all decoder ds) here
      ∙ ap (λ logs. log_of d ∷ logs) (handle_all_lem ds rest)

  run_round_lem :
      (r : Round) → All Returns (received_in r) → run_round decoder r ≡ map log_of (received_in r)
  unfolding run_round
  run_round_lem r h = handle_all_lem (received_in r) h

  consume-cons :
      (r : Round) (rounds : List Round)
      → consume decoder false (r ∷ rounds) ≡ run_round decoder r ++ consume decoder r.stopped rounds
  unfolding consume
  consume-cons r rounds = refl

  consume_stopped : (rounds : List Round) → consume decoder true rounds ≡ []
  unfolding consume
  consume_stopped rounds = refl

  -- The loop handles the messages that its rounds get, each once and in order, over all reconnects,
  -- up to the round in which the service is shut down; what comes later it does not touch. A round
  -- gets no messages where JetStream fails. Every handling returns.
  pub consume_in_order :
      (before : List Round) (last : Round) (after : List Round)
      → All Runs before
      → last.stopped ≡ true
      → All Returns (all_received (before ++ last ∷ []))
      → consume decoder false (before ++ last ∷ after)
        ≡ map log_of (all_received (before ++ last ∷ []))
  consume_in_order [] last after runs stops returns =
      consume-cons last after
      ∙ ap (λ b. run_round decoder last ++ consume decoder b after) stops
      ∙ ap (λ logs. run_round decoder last ++ logs) (consume_stopped after)
      ∙ append-nil (run_round decoder last)
      ∙ run_round_lem last (All-split Returns (received_in last) [] returns).0
      ∙ ap (map log_of) (sym (append-nil (received_in last)))
  consume_in_order (r ∷ before) last after (here, runs) stops returns =
      let (first, rest) =
        All-split Returns (received_in r) (all_received (before ++ last ∷ [])) returns in
      consume-cons r (before ++ last ∷ after)
      ∙ ap (λ b. run_round decoder r ++ consume decoder b (before ++ last ∷ after)) here
      ∙ ap (λ logs. run_round decoder r ++ logs)
          (consume_in_order before last after runs stops rest)
      ∙ ap (λ logs. logs ++ map log_of (all_received (before ++ last ∷ []))) (run_round_lem r first)
      ∙ sym (map-append log_of (received_in r) (all_received (before ++ last ∷ [])))

  -- No delivery of the loop acknowledges its message before the job is scheduled or the message is
  -- in the dead letter queue, also where a handling throws and the round is given up.
  handle_all-safe :
      (ds : List Incoming) → All (λ log. safe_from false log ≡ true) (handle_all decoder ds)
  unfolding handle_all
  handle_all-safe [] = tt
  handle_all-safe (d ∷ ds) =
      go (handle_incoming decoder d) (handle_delivery-safe decoder d.env d.payload d.delivery_count)
        (handle_all-safe ds)
    where
      go :
          (r : Run (Unit {0}))
          → safe_from false r.1 ≡ true
          → All (λ log. safe_from false log ≡ true) (handle_all decoder ds)
          → All (λ log. safe_from false log ≡ true) (then_rest r (handle_all decoder ds))
      go (ok done, log) safe rest = (safe, rest)
      go (err e, log) safe rest = (safe, tt)
