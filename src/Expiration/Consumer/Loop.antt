-- ===== src/Expiration/Consumer/Loop.antt =====
-- The loop of the consumer, `consume` of apps/expiration/src/expiration/order-created.consumer.ts.
-- The consumer of JetStream and its messages are third-party: a round has their outcomes.
pub mod Order
use polyglot_ticketing_v.Base.{ℕ, Bool, true, false, List, [], ◌∷◌, ◌++◌, Result, ok, err}
use polyglot_ticketing_v.Value.{Value}
use polyglot_ticketing_v.Expiration.Effects.{Failure, Effect, Run}
use polyglot_ticketing_v.Expiration.Handler.{Decoder}
use polyglot_ticketing_v.Expiration.Consumer.{Environment, handle_delivery}

-- A message that is handed out, with the outcomes of the calls that its handling may make.
pub record Incoming : Type 0 where
  pub payload : List ℕ
  pub delivery_count : ℕ
  pub env : Environment

-- One round of the `while`: what `orderCreatedConsumer` and `consume` do, the messages that the
-- iterator hands out, how it ends, and whether `onApplicationShutdown` has been called by then.
pub record Round : Type 0 where
  pub consumer : Result Value (Unit {0})
  pub messages : Result Value (Unit {0})
  pub incoming : List Incoming
  pub stopped : Bool

-- The rest of the messages is handled only where a handling returns.
abbrev pub then_rest : Run (Unit {0}) → List (List Effect) → List (List Effect)
then_rest (ok done, log) rest = log ∷ rest
then_rest (err e, log) rest = log ∷ []

-- The messages that a round gets to.
abbrev pub received :
    Result Value (Unit {0}) → Result Value (Unit {0}) → List Incoming → List Incoming
received (ok done) (ok done') ds = ds
received (ok done) (err e) ds = []
received (err e) messages ds = []

module _ (decoder : Decoder) where
  abbrev pub handle_incoming : Incoming → Run (Unit {0})
  handle_incoming d = handle_delivery decoder d.env d.payload d.delivery_count

  -- The `for await`: a delivery that throws ends it. The result has the log of each delivery.
  unfoldable pub handle_all : List Incoming → List (List Effect)
  unfolding handle_delivery
  handle_all [] = []
  handle_all (d ∷ ds) = then_rest (handle_incoming d) (handle_all ds)

  -- The `try`; what it throws is only logged.
  unfoldable pub run_round : Round → List (List Effect)
  unfolding handle_all
  run_round r = handle_all (received r.consumer r.messages r.incoming)

  -- The loop over the rounds to come, from the value of `stopping` on.
  unfoldable pub consume : Bool → List Round → List (List Effect)
  unfolding run_round
  consume true rounds = []
  consume false [] = []
  consume false (r ∷ rounds) = run_round r ++ consume r.stopped rounds
