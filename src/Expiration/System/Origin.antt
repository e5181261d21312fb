-- ===== src/Expiration/System/Origin.antt =====
-- Where the jobs of the queue and the messages of the stream come from.
use polyglot_ticketing_v.Base.{
  ℕ, ℤ, is_le, ◌≡◌, refl, sym, ap, subst, ◌∙◌, ◌⊎◌, String, true, false, some, List, [], ◌∷◌,
  Result, ok, err, inl, inr, arith,
}
use mathlib.Core.List.{Memᴰ}
use polyglot_ticketing_v.Value.{Value}
use polyglot_ticketing_v.Expiration.Constants.{expiration_job_name}
use polyglot_ticketing_v.Expiration.Effects.{Job, Message, scheduled, Run}
use polyglot_ticketing_v.Expiration.Scheduler.{expiration_job}
use polyglot_ticketing_v.Expiration.Scheduler.Timing.{due}
use polyglot_ticketing_v.Expiration.Handler.{OrderCreated, Decoder, handle}
use polyglot_ticketing_v.Expiration.Consumer.{Environment, settle, handle_delivery}
use polyglot_ticketing_v.Expiration.Consumer.Settling.{IsHandled, handle-IsHandled}
use polyglot_ticketing_v.Expiration.Processor.{completion_message}
use polyglot_ticketing_v.Expiration.Processor.Completion.{IsAccepted, handle-ok, handle-IsAccepted}
use polyglot_ticketing_v.Expiration.System.{Entry, QueueApi, System, add_all}

module _ (decoder : Decoder) where
  -- The entry is the job of an accepted event among the deliveries, added at some time.
  pub record Origin (delivered : List (List ℕ)) (id : String) (entry : Entry) : Type 0 where
    pub payload : List ℕ
    pub event : OrderCreated
    pub expiry : ℤ
    pub added : ℤ
    pub delivery : Memᴰ payload delivered
    pub accepted : IsAccepted decoder payload event expiry
    pub named : id ≡ event.order_id
    pub made : entry ≡ (
      expiration_job added event.order_id expiry,
      due added (expiration_job added event.order_id expiry).delay,
    )

  pub Origin-later :
      {delivered : List (List ℕ)} {id : String} {entry : Entry} (payload : List ℕ)
      → Origin delivered id entry
      → Origin (payload ∷ delivered) id entry
  Origin-later payload o = record {
    payload = o.payload;
    event = o.event;
    expiry = o.expiry;
    added = o.added;
    delivery = Memᴰ.tail o.delivery;
    accepted = o.accepted;
    named = o.named;
    made = o.made;
  }

  -- What the scheduler sets: the job is of its order, and is kept when it is finished.
  pub Origin-job :
      {delivered : List (List ℕ)} {id : String} {job : Job} {t : ℤ}
      → Origin delivered id (job, t)
      → (job.order_id ≡ id)
        × (job.name ≡ expiration_job_name)
        × (job.remove_on_complete ≡ false)
        × (job.remove_on_fail ≡ false)
  unfolding expiration_job
  Origin-job o = (
    ap (λ entry. entry.0.order_id) o.made ∙ sym o.named,
    ap (λ entry. entry.0.name) o.made,
    ap (λ entry. entry.0.remove_on_complete) o.made,
    ap (λ entry. entry.0.remove_on_fail) o.made,
  )

module _ (decoder : Decoder) (api : QueueApi) where
  -- A message of the stream is the completion of an order, published by its job when that was due.
  abbrev pub Published : api.Queue → ℤ × Message → Type 0
  Published q (at, m) =
      (job : Job) × (t : ℤ) × (api.get_job m.order_id q ≡ some (job, t))
      × (m ≡ completion_message m.order_id)
      × (is_le t at ≡ true)

  pub record IsTraced (s : System api) : Type 0 where
    pub jobs :
        (id : String) (entry : Entry)
        → api.get_job id s.queue ≡ some entry
        → Origin decoder s.delivered id entry
    pub messages : (sent : ℤ × Message) → Memᴰ sent s.stream → Published s.queue sent

  -- A delivery leaves the queue, or adds the job of an accepted event to it.
  abbrev pub Adds : ℤ → List ℕ → api.Queue → api.Queue → Type 0
  Adds now payload q r =
      (r ≡ q)
      ⊎ ((event : OrderCreated) × (expiry : ℤ) × IsAccepted decoder payload event expiry
          × (r ≡ api.add now (expiration_job now event.order_id expiry) q))

  log-Adds :
      (payload : List ℕ) (add : Result Value (Unit {0})) (now : ℤ) (q : api.Queue)
      (r : Run (Unit {0}))
      → handle decoder add now payload ≡ r
      → IsHandled r
      → Adds now payload q (add_all api now r.1 q)
  log-Adds payload add now q (err e, []) h handled = inl refl
  log-Adds payload add now q (ok tt, scheduled job ∷ []) h handled =
      let (event, expiry, accepted, only) =
        handle-ok decoder payload add now (scheduled job ∷ []) h in
      inr (event, expiry, accepted, ap (λ log. add_all api now log q) only)
  log-Adds payload add now q _ h handled = absurd handled

  pub handle-Adds :
      (payload : List ℕ) (add : Result Value (Unit {0})) (now : ℤ) (q : api.Queue)
      → Adds now payload q (add_all api now (handle decoder add now payload).1 q)
  handle-Adds payload add now q =
      log-Adds payload add now q (handle decoder add now payload) refl
        (handle-IsHandled decoder add now payload)

  settle-add_all :
      (env : Environment) (count : ℕ) (now : ℤ) (q : api.Queue) (r : Run (Unit {0}))
      → IsHandled r
      → add_all api now (settle env count r).1 q ≡ add_all api now r.1 q
  unfolding settle
  settle-add_all env count now q (ok tt, scheduled job ∷ []) h = ground arith
  settle-add_all env count now q (err e, []) h = ground arith
  settle-add_all env count now q _ h = absurd h

  pub handle_delivery-Adds :
      (env : Environment) (payload : List ℕ) (count : ℕ) (q : api.Queue)
      → Adds env.now payload q (add_all api env.now (handle_delivery decoder env payload count).1 q)
  unfolding handle_delivery
  handle_delivery-Adds env payload count q =
      let handled = handle decoder env.add env.now payload in
      subst (λ r. Adds env.now payload q r)
        (sym (
          settle-add_all env count env.now q handled
            (handle-IsHandled decoder env.add env.now payload)))
        (handle-Adds payload env.add env.now q)

  -- Where the queue can be reached, the delivery of an accepted event adds its job.
  pub handle_delivery-add :
      (env : Environment) (payload : List ℕ) (count : ℕ) (event : OrderCreated) (expiry : ℤ)
      (q : api.Queue)
      → IsAccepted decoder payload event expiry
      → env.add ≡ ok tt
      → add_all api env.now (handle_delivery decoder env payload count).1 q
        ≡ api.add env.now (expiration_job env.now event.order_id expiry) q
  unfolding handle_delivery
  handle_delivery-add env payload count event expiry q accepted adds =
      settle-add_all env count env.now q (handle decoder env.add env.now payload)
        (handle-IsHandled decoder env.add env.now payload)
      ∙ ap (λ add. add_all api env.now (handle decoder add env.now payload).1 q) adds
      ∙ ap (λ r. add_all api env.now r.1 q)
          (handle-IsAccepted decoder payload env.now event expiry accepted)
