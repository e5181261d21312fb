-- ===== src/Expiration/System/Progress.antt =====
-- That an order which is accepted can always be completed.
use polyglot_ticketing_v.Base.{◌⊎◌, ℤ, ◌≡◌, String, List}
use mathlib.Core.List.{Memᴰ}
use polyglot_ticketing_v.Expiration.Scheduler.{expiration_job}
use polyglot_ticketing_v.Expiration.Scheduler.Timing.{due}
use polyglot_ticketing_v.Expiration.Handler.{Decoder}
use polyglot_ticketing_v.Expiration.Processor.{completion_message}
use polyglot_ticketing_v.Expiration.System.{Entry, or_else, QueueApi, System, Reach}
use polyglot_ticketing_v.Expiration.System.Attempts.{failures, IsCompleted}

module _ (api : QueueApi) (decoder : Decoder) where
  -- The completion of an order can be published: in some state that the service can come to, it is.
  abbrev pub Completes : System api → String → Type 0
  Completes s order_id =
      (t : System api) × Reach api decoder s t × Memᴰ (t.now, completion_message order_id) t.stream

  -- The entry that an order has after an accepted event of it: one of before, or the event's.
  abbrev entry_after : ℤ → api.Queue → String → ℤ → Entry
  entry_after now q order_id expiry =
      let job = expiration_job now order_id expiry in
      or_else (api.get_job order_id q) (job, due now job.delay)

  -- What has come of an accepted order: its completion is published; or it can be published; or five
  -- attempts at it have thrown, and none is left.
  abbrev pub Outcome : System api → String → Type 0
  Outcome s id =
      IsCompleted id s.stream
      ⊎ (Completes s id ⊎ ((failures id s.thrown ≡ 5) × (api.attempts_left id s.queue ≡ 0)))
