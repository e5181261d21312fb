-- ===== src/Expiration/System/Refinement.antt =====
-- The service implements the timer.
use polyglot_ticketing_v.Base.{
  ℕ, ℤ, pos, negsuc, is_le, ◌≡◌, sym, ap, subst, ◌∙◌, ◌⊎◌, String, true, Bool-cases, Option, none,
  some, Option-cases, List, ◌∷◌, map, Result, ok, err, inl, inr, str_eq, eq_iff, arith,
  if◌then◌else◌,
}
use mathlib.Core.Path.{fun_ext}
use polyglot_ticketing_v.Value.{Value}
use polyglot_ticketing_v.Expiration.Effects.{Job, Message, Run}
use polyglot_ticketing_v.Expiration.Scheduler.{expiration_job}
use polyglot_ticketing_v.Expiration.Scheduler.Timing.{due, expiration_job-due}
use polyglot_ticketing_v.Expiration.Handler.{Decoder}
use polyglot_ticketing_v.Expiration.Consumer.{handle_delivery}
use polyglot_ticketing_v.Expiration.Processor.{process}
use polyglot_ticketing_v.Expiration.System.{
  Entry, or_else, QueueApi, System, init, add_all, finish, after_attempt, Step, tick, deliver,
  deliver_lost, attempt, attempt_lost, Reach, start, later,
}
use polyglot_ticketing_v.Expiration.System.Origin.{
  IsTraced, Origin-job, Adds, handle-Adds, handle_delivery-Adds,
}
use polyglot_ticketing_v.Expiration.System.Invariant.{
  Reach-Next, init-IsTraced, get_job-finish, publish_all-process,
}
use polyglot_ticketing_v.Expiration.System.Timer.{Timer, set, Move, wait, arm, complete, Moves}

abbrev pub time_of : Option Entry → Option ℤ
time_of none = none
time_of (some entry) = some entry.1

abbrev pub completion_of : ℤ × Message → ℤ × String
completion_of sent = (sent.0, sent.1.order_id)

module _ (api : QueueApi) where
  abbrev pub deadlines : api.Queue → String → Option ℤ
  deadlines q id = time_of (api.get_job id q)

  -- What a state of the service looks like as a timer.
  abbrev pub as_timer : System api → Timer
  as_timer s = record {
    now = s.now;
    deadline = deadlines s.queue;
    completed = map completion_of s.stream;
  }

  -- A step is no move, or one.
  abbrev Follows : Timer → Timer → Type 0
  Follows s t = (s ≡ t) ⊎ Move s t

  deadlines-eq :
      (q r : api.Queue)
      → ((id : String) → api.get_job id q ≡ api.get_job id r)
      → deadlines q ≡ deadlines r
  deadlines-eq q r h = fun_ext (λ id. ap time_of (h id))

  get_job-add_known :
      (now : ℤ) (job : Job) (q : api.Queue) (o : Option Entry) (id : String)
      → id ≡ job.job_id
      → api.get_job job.job_id q ≡ o
      → deadlines (api.add now job q) id ≡ time_of (some (or_else o (job, due now job.delay)))
  get_job-add_known now job q o id e known =
      ap (λ i. deadlines (api.add now job q) i) e
      ∙ ap time_of (api.get_job-add now job q)
      ∙ ap (λ x. time_of (some (or_else x (job, due now job.delay)))) known

  -- The job of an order that has none sets its deadline.
  deadlines-add :
      (now : ℤ) (job : Job) (q : api.Queue)
      → api.get_job job.job_id q ≡ none
      → set job.job_id (due now job.delay) (deadlines q) ≡ deadlines (api.add now job q)
  deadlines-add now job q new = fun_ext (λ id. elim (Bool-cases (str_eq id job.job_id)) [
    | inl same ↦
        rw same (sym (get_job-add_known now job q none id ((eq_iff id job.job_id).0 same) new))
    | inr other ↦ rw other (
        ap time_of
          (sym (api.get_job-add_of_ne now job q id (ground (arith, eq_iff id job.job_id)))))
  ])

  -- The job of an order that has one changes nothing.
  deadlines-add_known :
      (now : ℤ) (job : Job) (q : api.Queue) (entry : Entry)
      → api.get_job job.job_id q ≡ some entry
      → deadlines q ≡ deadlines (api.add now job q)
  deadlines-add_known now job q entry known = fun_ext (λ id.
      elim (Bool-cases (str_eq id job.job_id)) [
        | inl same ↦
            let e = (eq_iff id job.job_id).0 same in
            ap (λ i. deadlines q i) e
            ∙ ap time_of known
            ∙ sym (get_job-add_known now job q (some entry) id e known)
        | inr other ↦
            ap time_of
              (sym (api.get_job-add_of_ne now job q id (ground (arith, eq_iff id job.job_id))))
      ])

  module _ (decoder : Decoder) where
    is_le_due : (now expiry : ℤ) → is_le now (if is_le now expiry then expiry else now) ≡ true
    is_le_due (pos a) (pos b) = ground arith
    is_le_due (pos a) (negsuc b) = ground arith
    is_le_due (negsuc a) (pos b) = ground arith
    is_le_due (negsuc a) (negsuc b) = ground arith

    -- A delivery is no move, or it sets the deadline of an order that has none.
    Adds-Follows :
        (s : System api) (payload : List ℕ) (r : api.Queue)
        → Adds decoder api s.now payload s.queue r
        → Follows
            (as_timer s)
            (as_timer (record s { queue = r; delivered = payload ∷ s.delivered }))
    Adds-Follows s payload r (inl same) =
        inl (ap (λ q. record (as_timer s) { deadline = deadlines q }) (sym same))
    Adds-Follows s payload r (inr (event, expiry, accepted, added)) =
        let job = expiration_job s.now event.order_id expiry in
        elim (Option-cases (api.get_job job.job_id s.queue)) [
          | inl new ↦ inr (
              subst (λ f. Move (as_timer s) (record (as_timer s) { deadline = f }))
                (deadlines-add s.now job s.queue new ∙ ap deadlines (sym added))
                (arm job.job_id (due s.now job.delay) (ap time_of new) (
                  subst (λ t. is_le s.now t ≡ true)
                    (sym (expiration_job-due s.now expiry event.order_id).0)
                    (is_le_due s.now expiry))))
          | inr (entry, known) ↦ inl (
              ap (λ f. record (as_timer s) { deadline = f })
                (deadlines-add_known s.now job s.queue entry known ∙ ap deadlines (sym added)))
        ]

    attempt-Follows :
        (s : System api) (id : String) (job : Job) (t : ℤ) (r : Run (Unit {0}))
        (publish : Result Value (Unit {0}))
        → IsTraced decoder api s
        → api.get_job id s.queue ≡ some (job, t)
        → is_le t s.now ≡ true
        → Follows (as_timer s) (as_timer (after_attempt api s job r (process publish job).1))
    attempt-Follows s id job t r publish traced found late =
        let (named, known, completes, fails) = Origin-job decoder (traced.jobs id (job, t) found) in
        let same =
          deadlines-eq s.queue (finish api job r.0 s.queue)
            (λ i. sym (get_job-finish api decoder job r.0 s.queue i completes fails)) in
        elim (publish_all-process api decoder publish job s.now s.stream) [
          | inl nothing ↦ inl (
              ap (λ f. record (as_timer s) { deadline = f }) same
              ∙ ap
                  (λ l. record (as_timer s) {
                    deadline = deadlines (finish api job r.0 s.queue);
                    completed = map completion_of l;
                  })
                  (sym nothing))
          | inr sent ↦ inr (
              subst
                (λ l. Move (as_timer s) (record (as_timer s) {
                  deadline = deadlines (finish api job r.0 s.queue);
                  completed = l;
                }))
                (ap (λ i. (s.now, i) ∷ map completion_of s.stream) (sym named)
                  ∙ ap (map completion_of) (sym sent))
                (subst
                  (λ f. Move (as_timer s) (record (as_timer s) {
                    deadline = f;
                    completed = (s.now, id) ∷ map completion_of s.stream;
                  }))
                  same (complete id t (ap time_of found) late)))
        ]

    Step-Follows :
        {s t : System api}
        → Step api decoder s t
        → IsTraced decoder api s
        → Follows (as_timer s) (as_timer t)
    Step-Follows {s} (tick n) traced = inr (wait n)
    Step-Follows {s} (deliver env payload count clock) traced = Adds-Follows s payload _ (
        subst
          (λ now.
            Adds decoder api now payload s.queue
              (add_all api now (handle_delivery decoder env payload count).1 s.queue))
          clock (handle_delivery-Adds decoder api env payload count s.queue))
    Step-Follows {s} (deliver_lost payload) traced =
        Adds-Follows s payload _ (handle-Adds decoder api payload (ok tt) s.now s.queue)
    Step-Follows {s} (attempt id job t publish found late left) traced =
        attempt-Follows s id job t (process publish job) publish traced found late
    Step-Follows {s} (attempt_lost id job t e found late left) traced =
        attempt-Follows s id job t (process (err e) job) (ok tt) traced found late

    Follows-Moves : {a b c : Timer} → Moves a b → Follows b c → Moves a c
    Follows-Moves {a} moves (inl same) = subst (Moves a) same moves
    Follows-Moves moves (inr move) = Moves.later moves move

    -- The service implements the timer: whatever happens to it, with all failures, retries and
    -- redeliveries, is seen from outside as moves of the timer. Its deadlines are those of its
    -- jobs, and its completions are the events in the stream.
    pub service-Timer :
        (began : ℤ) (s t : System api)
        → Reach api decoder (init api began) s
        → Reach api decoder s t
        → Moves (as_timer s) (as_timer t)
    service-Timer began s t r start = Moves.start
    service-Timer began s t r (later more step) =
        let (traced, k) = Reach-Next api decoder r (init-IsTraced api decoder began) in
        let (traced', k') = Reach-Next api decoder more traced in
        Follows-Moves (service-Timer began s _ r more) (Step-Follows step traced')
