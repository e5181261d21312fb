-- ===== src/Expiration/Processor/Completion.antt =====
-- From an OrderCreated event to the ExpirationComplete event of the same order.
use polyglot_ticketing_v.Base.{
  ℕ, ℤ, String, ◌≡◌, ◌≢◌, refl, Bool, true, false, some, List, [], ◌∷◌, Result, ok, err, arith,
  eq_iff, Option-cases, inl, inr, any, ◌↔◌,
}
use polyglot_ticketing_v.Base.Text.{trim}
use polyglot_ticketing_v.Value.{Value}
use polyglot_ticketing_v.Contracts.OrderStatus.{OrderStatus}
use polyglot_ticketing_v.Platform.Dates.{Timestamp}
use polyglot_ticketing_v.Expiration.Effects.{
  Failure, Job, Effect, scheduled, acked, published, observed, Run,
}
use polyglot_ticketing_v.Expiration.Scheduler.{expiration_job, schedule}
use polyglot_ticketing_v.Expiration.Handler.{OrderCreated, Decoder, handle_event, handle}
use polyglot_ticketing_v.Expiration.Consumer.{Environment, handle_delivery}
use polyglot_ticketing_v.Expiration.Processor.{completion_message, process}

-- An event that the handler accepts: decoded, of a created order with an id, with an expiry that is
-- a time.
pub record IsAccepted (decoder : Decoder) (payload : List ℕ) (event : OrderCreated) (expiry : ℤ)
    : Type 0 where
  pub timestamp : Timestamp
  pub decoded : decoder.from_binary payload ≡ some event
  pub named : trim event.order_id ≢ ""
  pub created : event.order_status ≡ OrderStatus.created
  pub expires : event.expires_at ≡ some timestamp
  pub timed : decoder.timestamp_date timestamp ≡ some expiry

-- The handler schedules an accepted event: it adds the job of the event's order and expiry.
pub handle-IsAccepted :
    (decoder : Decoder) (payload : List ℕ) (now : ℤ) (event : OrderCreated) (expiry : ℤ)
    → IsAccepted decoder payload event expiry
    → handle decoder (ok tt) now payload
      ≡ (ok tt, scheduled (expiration_job now event.order_id expiry) ∷ [])
unfolding handle
handle-IsAccepted decoder payload now event expiry a =
    rw a.decoded (ground (arith, eq_iff (trim event.order_id) "", a.created, a.expires, a.timed))

throws-ne-ok :
    {f : Failure} {log log' : List Effect} → ◌≡◌ {A = Run (Unit {0})} (err f, log) (ok tt, log') → ⊥
throws-ne-ok e = ground arith

abbrev pub Scheduled : Decoder → List ℕ → ℤ → List Effect → Type 0
Scheduled decoder payload now log =
    (event : OrderCreated) × (expiry : ℤ) × IsAccepted decoder payload event expiry
    × (log ≡ scheduled (expiration_job now event.order_id expiry) ∷ [])

time-ok :
    (decoder : Decoder) (payload : List ℕ) (add : Result Value (Unit {0})) (now : ℤ)
    (log : List Effect) (event : OrderCreated) (t : Timestamp) (expiry : ℤ)
    → decoder.from_binary payload ≡ some event
    → event.expires_at ≡ some t
    → decoder.timestamp_date t ≡ some expiry
    → handle_event decoder add now (some event) ≡ (ok tt, log)
    → Scheduled decoder payload now log
unfolding schedule
time-ok decoder payload add now log event t expiry decoded expires timed h = (
  event,
  expiry,
  record {
    timestamp = t;
    decoded = decoded;
    named = ground (arith, eq_iff (trim event.order_id) "");
    created = ground arith;
    expires = expires;
    timed = timed;
  },
  ground (arith, expires, timed),
)

event-ok :
    (decoder : Decoder) (payload : List ℕ) (add : Result Value (Unit {0})) (now : ℤ)
    (log : List Effect) (event : OrderCreated)
    → decoder.from_binary payload ≡ some event
    → handle_event decoder add now (some event) ≡ (ok tt, log)
    → Scheduled decoder payload now log
event-ok decoder payload add now log event decoded h = elim (Option-cases event.expires_at) [
  | inl missing ↦ absurd (ground arith)
  | inr (t, expires) ↦ elim (Option-cases (decoder.timestamp_date t)) [
    | inl untimed ↦ absurd (ground (arith, untimed, expires))
    | inr (expiry, timed) ↦
        time-ok decoder payload add now log event t expiry decoded expires timed h
  ]
]

-- Only accepted events are scheduled.
pub handle-ok :
    (decoder : Decoder) (payload : List ℕ) (add : Result Value (Unit {0})) (now : ℤ)
    (log : List Effect)
    → handle decoder add now payload ≡ (ok tt, log)
    → (event : OrderCreated) × (expiry : ℤ) × IsAccepted decoder payload event expiry
      × (log ≡ scheduled (expiration_job now event.order_id expiry) ∷ [])
unfolding handle
handle-ok decoder payload add now log h = elim (Option-cases (decoder.from_binary payload)) [
  | inl undecoded ↦ absurd (throws-ne-ok (rw undecoded at h))
  | inr (event, decoded) ↦ event-ok decoder payload add now log event decoded (rw decoded at h)
]

process-published :
    (now expiry : ℤ) (order_id : String)
    → process (ok tt) (expiration_job now order_id expiry)
      ≡ (ok tt, published (completion_message order_id) ∷ observed "success" ∷ [])
unfolding process expiration_job
process-published now expiry order_id = refl

abbrev pub is_published : Effect → Bool
is_published (published m) = true
is_published _ = false

-- A job completes exactly where its event is published: it throws, to be retried, where the publish
-- fails, and where the job is not one of the service.
pub process-published_iff :
    (publish : Result Value (Unit {0})) (job : Job)
    → ((process publish job).0 ≡ ok tt) ↔ (any is_published (process publish job).1 ≡ true)
unfolding process
process-published_iff publish job = ground arith

-- An accepted event whose delivery can be scheduled and acknowledged is acknowledged after its job
-- is added; and that job, when it can publish, publishes one event: the completion of the same
-- order, under the order's identity.
pub accepted_event_completes :
    (decoder : Decoder) (env : Environment) (payload : List ℕ) (count : ℕ) (event : OrderCreated)
    (expiry : ℤ)
    → IsAccepted decoder payload event expiry
    → env.add ≡ ok tt
    → env.ack_handled ≡ ok tt
    → (job : Job) × (handle_delivery decoder env payload count
        ≡ (ok tt, scheduled job ∷ acked ∷ observed "success" ∷ []))
      × (process (ok tt) job
          ≡ (ok tt, published (completion_message event.order_id) ∷ observed "success" ∷ []))
unfolding handle_delivery
accepted_event_completes decoder env payload count event expiry accepted adds acks = (
  expiration_job env.now event.order_id expiry,
  rw (adds, handle-IsAccepted decoder payload env.now event expiry accepted) (ground (arith, acks)),
  process-published env.now expiry event.order_id,
)
