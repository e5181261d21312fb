-- ===== src/Expiration/Consumer.antt =====
-- Handling one delivery, and one message until it is settled:
-- apps/expiration/src/expiration/order-created.consumer.ts. The job queue, the dead letter
-- queue and the message's `ack` and `nak` are third-party: their outcomes are the environment of a
-- delivery.
pub mod Settling
pub mod Redelivery
pub mod Loop
use polyglot_ticketing_v.Base.{
  ℕ, ℤ, zero, suc, ◌+◌, String, Bool, true, false, ◌&&◌, ◌||◌, not, Option, none, some, List, [],
  ◌∷◌, ◌++◌, Result, ok, err, ltb, any, str_eq, if◌then◌else◌,
}
use polyglot_ticketing_v.Value.{Value}
use polyglot_ticketing_v.Expiration.Handler.{Decoder, handle}
use polyglot_ticketing_v.Expiration.Constants.{order_created_max_retries}
use polyglot_ticketing_v.Expiration.Effects.{
  Failure, invalid_event, other, Effect, scheduled, parked, acked, naked, observed, Run, pure,
  perform, ◌>>=◌, ◌>>◌, catching,
}

-- The outcomes of the calls that one delivery may make, each made at most once.
pub record Environment : Type 0 where
  -- The clock, and `queue.add` of the scheduler.
  pub now : ℤ
  pub add : Result Value (Unit {0})
  -- `jetStream.parkOrderCreated`
  pub park : Result Value (Unit {0})
  -- `delivery.ack()` after handling, and after parking.
  pub ack_handled : Result Value (Unit {0})
  pub ack_parked : Result Value (Unit {0})
  -- `delivery.nak()`
  pub nak : Result Value (Unit {0})

unfoldable pub failure_class : Failure → String
failure_class invalid_event = "invalid"
failure_class (other v) = "retryable"

-- A metric, which does not throw.
abbrev pub observe : String → Run (Unit {0})
observe outcome = (ok tt, observed outcome ∷ [])

module _ (env : Environment) where
  open env use {park as park_outcome, ack_handled, ack_parked, nak}

  abbrev pub after_park : String → Result Value (Unit {0}) → Run Bool
  after_park class (err e) = do perform naked nak; pure false
  after_park class (ok done) =
      let (r, log) = (do perform acked ack_parked; pure true) in (r, parked class ∷ log)

  -- `park`: true where the message is in the dead letter queue.
  unfoldable pub park : String → Run Bool
  park class = after_park class park_outcome

  -- The `catch` of `handleDelivery`.
  unfoldable pub on_failure : ℕ → Failure → Run (Unit {0})
  unfolding failure_class park
  on_failure delivery_count failure =
      let class = failure_class failure in
      if str_eq class "invalid" || ltb order_created_max_retries delivery_count
      then (do
        done ← park class
        if done then observe "dead_lettered" else observe "dead_letter_publish_failed")
      else (do perform naked nak; observe "retry")

  -- The body of `handleDelivery`, over the run of the handler.
  unfoldable pub settle : ℕ → Run (Unit {0}) → Run (Unit {0})
  unfolding on_failure
  settle delivery_count handled =
      catching (do handled; perform acked ack_handled; observe "success")
        (on_failure delivery_count)

unfoldable pub handle_delivery : Decoder → Environment → List ℕ → ℕ → Run (Unit {0})
unfolding settle handle
handle_delivery decoder env payload delivery_count =
    settle env delivery_count (handle decoder env.add env.now payload)

abbrev pub is_acked : Effect → Bool
is_acked acked = true
is_acked _ = false

abbrev pub is_naked : Effect → Bool
is_naked naked = true
is_naked _ = false

abbrev pub is_parked : Effect → Bool
is_parked (parked class) = true
is_parked _ = false

abbrev pub is_scheduled : Effect → Bool
is_scheduled (scheduled job) = true
is_scheduled _ = false

-- A message that is handed out again until it is acknowledged. The broker counts the deliveries,
-- from `count`; delivery k meets the environment `env k`. The result is the count of the delivery
-- that acknowledges, and `none` where the fuel runs out.
unfoldable pub deliver : Decoder → List ℕ → ℕ → (ℕ → Environment) → ℕ → Option ℕ
unfolding handle_delivery
deliver decoder payload zero env count = none
deliver decoder payload (suc fuel) env count =
    let again = deliver decoder payload fuel env (count + 1) in
    if any is_acked (handle_delivery decoder (env count) payload count).1 then some count else again
