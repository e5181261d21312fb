-- ===== src/Expiration/System/Completions.antt =====
-- The completions that the stream gets, and the jobs behind them.
use polyglot_ticketing_v.Base.{
  ℕ, ◌≤◌, ℤ, pos, negsuc, is_le, ◌≡◌, refl, sym, ap, subst, ◌∙◌, String, true, some, List, arith,
  if◌then◌else◌,
}
use mathlib.Core.List.{Memᴰ}
use polyglot_ticketing_v.Expiration.Effects.{Message}
use polyglot_ticketing_v.Expiration.Scheduler.{expiration_job}
use polyglot_ticketing_v.Expiration.Scheduler.Timing.{due, expiration_job-due}
use polyglot_ticketing_v.Expiration.Handler.{OrderCreated, Decoder}
use polyglot_ticketing_v.Expiration.Processor.{completion_message}
use polyglot_ticketing_v.Expiration.Processor.Completion.{IsAccepted}
use polyglot_ticketing_v.Expiration.System.{Entry, QueueApi, System, init, Reach}
use polyglot_ticketing_v.Expiration.System.Counting.{Reach-Keeps, init-Counts}
use polyglot_ticketing_v.Expiration.System.Invariant.{Reach-Next, init-IsTraced}

is_le_trans : (a b c : ℤ) → is_le a b ≡ true → is_le b c ≡ true → is_le a c ≡ true
is_le_trans (pos a) (pos b) (pos c) h k = ground arith
is_le_trans (pos a) (pos b) (negsuc c) h k = ground arith
is_le_trans (pos a) (negsuc b) c h k = ground arith
is_le_trans (negsuc a) b (pos c) h k = refl
is_le_trans (negsuc a) (pos b) (negsuc c) h k = ground arith
is_le_trans (negsuc a) (negsuc b) (negsuc c) h k = ground arith

is_le_later : (now expiry : ℤ) → is_le expiry (if is_le now expiry then expiry else now) ≡ true
is_le_later (pos a) (pos b) = ground arith
is_le_later (pos a) (negsuc b) = ground arith
is_le_later (negsuc a) (pos b) = ground arith
is_le_later (negsuc a) (negsuc b) = ground arith

expiry_before_due :
    (now expiry : ℤ) (order_id : String)
    → is_le expiry (due now (expiration_job now order_id expiry).delay) ≡ true
expiry_before_due now expiry order_id =
    subst (λ t. is_le expiry t ≡ true) (sym (expiration_job-due now expiry order_id).0)
      (is_le_later now expiry)

module _ (api : QueueApi) (decoder : Decoder) where
  -- In every state that the service can reach, whichever calls fail or lose their replies and
  -- however often messages are delivered and jobs attempted: an event in the stream is the
  -- completion of an order whose OrderCreated event was delivered and accepted, and it was
  -- published no earlier than the expiry that this event gives.
  pub completions_follow_expiry :
      (began at : ℤ) (s : System api) (m : Message)
      → Reach api decoder (init api began) s
      → Memᴰ (at, m) s.stream
      → (payload : List ℕ) × (event : OrderCreated) × (expiry : ℤ) × Memᴰ payload s.delivered
        × IsAccepted decoder payload event expiry
        × (m ≡ completion_message event.order_id)
        × (is_le expiry at ≡ true)
  completions_follow_expiry began at s m r sent =
      let (traced, keeps) = Reach-Next api decoder r (init-IsTraced api decoder began) in
      let (job, t, found, completes, late) = traced.messages (at, m) sent in
      let o = traced.jobs m.order_id (job, t) found in
      (
        o.payload,
        o.event,
        o.expiry,
        o.delivery,
        o.accepted,
        completes ∙ ap completion_message o.named,
        is_le_trans o.expiry t at
            (subst (λ u. is_le o.expiry u ≡ true) (sym (ap (λ entry. entry.1) o.made))
              (expiry_before_due o.added o.expiry o.event.order_id))
            late,
      )

  -- From every state that the service can reach, whatever happens next: the queue keeps the job that
  -- it has for an order, with its time, and gives it no new attempts. So neither a redelivery nor a
  -- second event of the order moves its expiry, and a job that is completed or has failed for good,
  -- with no attempt left, has none in any later state.
  pub jobs_stay :
      (began : ℤ) (s t : System api) (id : String) (entry : Entry)
      → Reach api decoder (init api began) s
      → Reach api decoder s t
      → api.get_job id s.queue ≡ some entry
      → (api.get_job id t.queue ≡ some entry)
        × (api.attempts_left id t.queue ≤ api.attempts_left id s.queue)
  jobs_stay began s t id entry r more h =
      let first = init-IsTraced api decoder began in
      let (traced, before) = Reach-Next api decoder r first in
      let (counts, s1) = Reach-Keeps api decoder r first (init-Counts api decoder began) in
      let (counts', shrinks) = Reach-Keeps api decoder more traced counts in
      ((Reach-Next api decoder more traced).1 id entry h, shrinks id entry h)
