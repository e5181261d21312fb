-- ===== src/Tests/System.antt =====
-- Examples of the expiration service as a whole: its loop and its reachable states.
use polyglot_ticketing_v.Base.{
  ℕ, ◌≤◌, arith, ℤ, pos, ◌≡◌, refl, true, false, some, List, [], ◌∷◌, map, ok, is_le,
}
use mathlib.Core.List.{Memᴰ}
use polyglot_ticketing_v.Expiration.Scheduler.{expiration_job}
use polyglot_ticketing_v.Expiration.Handler.{OrderCreated, handle}
use polyglot_ticketing_v.Expiration.Consumer.{handle_delivery}
use polyglot_ticketing_v.Expiration.Consumer.Loop.{Incoming, Round, consume}
use polyglot_ticketing_v.Expiration.Consumer.Loop.Order.{log_of, consume_in_order}
use polyglot_ticketing_v.Expiration.Processor.{completion_message, process}
use polyglot_ticketing_v.Expiration.Processor.Completion.{IsAccepted}
use polyglot_ticketing_v.Expiration.System.{
  System, Entry, init, after_delivery, after_attempt, tick, deliver, attempt, Reach, start, later,
}
use polyglot_ticketing_v.Expiration.System.Completions.{completions_follow_expiry, jobs_stay}
use polyglot_ticketing_v.Expiration.System.Timer.{Moves}
use polyglot_ticketing_v.Expiration.System.Refinement.{as_timer, service-Timer}
use polyglot_ticketing_v.Tests.Samples.Queue.{queue}
use polyglot_ticketing_v.Tests.Samples.Events.{decoder, payload, working, without_queue}

abbrev first : Incoming
first = record { payload = payload; delivery_count = 1; env = working }

abbrev second : Incoming
second = record { payload = []; delivery_count = 1; env = without_queue }

-- A round with two messages, ended by a reconnect, and one that ends with the shutdown.
abbrev early_round : Round
early_round = record {
  consumer = ok tt;
  messages = ok tt;
  incoming = first ∷ second ∷ [];
  stopped = false;
}

abbrev last_round : Round
last_round = record { consumer = ok tt; messages = ok tt; incoming = second ∷ []; stopped = true }

consume_in_order_example :
    consume decoder false (early_round ∷ last_round ∷ early_round ∷ [])
    ≡ map (log_of decoder) (first ∷ second ∷ second ∷ [])
unfolding handle_delivery handle
consume_in_order_example =
    consume_in_order decoder (early_round ∷ []) last_round (early_round ∷ []) (refl, tt) refl
      (refl, (refl, (refl, tt)))

-- The order o1 is created at 0, expires at 900, and is completed at 900.
abbrev delivered : System queue
delivered =
    after_delivery queue (init queue (pos 0)) payload (handle_delivery decoder working payload 1).1

abbrev waited : System queue
waited = record delivered { now = pos 900_000 }

abbrev job_entry : Entry
job_entry = (expiration_job (pos 0) "o1" (pos 900_000), pos 900_000)

abbrev completed : System queue
completed =
    after_attempt queue waited job_entry.0 (process (ok tt) job_entry.0)
      (process (ok tt) job_entry.0).1

delivered-Reach : Reach queue decoder (init queue (pos 0)) delivered
delivered-Reach = later start (deliver working payload 1 refl)

waited-Reach : Reach queue decoder delivered waited
waited-Reach = later start (tick 900_000)

completed-Reach : Reach queue decoder (init queue (pos 0)) completed
unfolding handle_delivery handle expiration_job process
completed-Reach =
    later (later (later start (deliver working payload 1 refl)) (tick 900_000))
      (attempt "o1" job_entry.0 job_entry.1 (ok tt) refl refl (ground arith))

completions_follow_expiry_example :
    (p : List ℕ) × (e : OrderCreated) × (expiry : ℤ) × Memᴰ p completed.delivered
    × IsAccepted decoder p e expiry
    × (completion_message "o1" ≡ completion_message e.order_id)
    × (is_le expiry (pos 900_000) ≡ true)
unfolding handle_delivery handle expiration_job process
completions_follow_expiry_example =
    completions_follow_expiry queue decoder (pos 0) (pos 900_000) completed
      (completion_message "o1") completed-Reach (Memᴰ.head refl)

jobs_stay_example :
    (queue.get_job "o1" waited.queue ≡ some job_entry)
    × (queue.attempts_left "o1" waited.queue ≤ queue.attempts_left "o1" delivered.queue)
unfolding handle_delivery handle expiration_job process
jobs_stay_example =
    jobs_stay queue decoder (pos 0) delivered waited "o1" job_entry delivered-Reach waited-Reach
      refl

service-Timer_example : Moves (as_timer queue (init queue (pos 0))) (as_timer queue completed)
service-Timer_example =
    service-Timer queue decoder (pos 0) (init queue (pos 0)) completed start completed-Reach
