-- ===== src/Orders/History/Ledger.antt =====
-- The outbox keeps agreeing with the orders when a row is updated.
pub mod Histories
use polyglot_ticketing_v.Base.{
  ℕ, suc, String, ◌≡◌, refl, sym, ap, subst, ◌∙◌, Bool, true, false, ◌&&◌, ◌||◌, not, Bool-cases,
  inl, inr, Option, none, some, List, [], ◌∷◌, All, Result, ok, err, contains, str_eq, eq_iff,
  if◌then◌else◌,
}
use polyglot_ticketing_v.Orders.{
  Status, created, canceled, awaiting_payment, complete, Ticket, Order, TicketReservationInput,
  OrderError, OutboxEvent, order_created, order_canceled, Database, is_canceled, is_complete,
}
use polyglot_ticketing_v.Orders.Repository.{
  TicketEventVersionDecision, apply_ticket_event_version, ignore_ticket_event_version, version_of,
  find_ticket, decide_ticket_event_version, update_order, has_order, find_blocking_order,
  after_find, after_ticket, reserve_ticket, after_cancel, cancel_by_id_and_user, once, cancel_found,
  cancel_where, with_orders, move_where, was_created, was_pending, pending_of,
  apply_expiration_complete, apply_payment_created, apply_payment_succeeded, apply_payment_failed,
  upsert_ticket_from_event, after_decision,
}
use polyglot_ticketing_v.Orders.Repository.Updates.{
  allowed, or_left, Update, update_order-Update, Update-none, Update-has_order, Update-some,
}
use polyglot_ticketing_v.Orders.History.{
  Action, reserve, cancel, expiration_complete, payment_created, payment_succeeded, payment_failed,
  ticket_event, perform, Reach, start, wait, step, creations, cancellations,
}
use polyglot_ticketing_v.Orders.History.Accounts.{
  Recorded, Distinct, Accounted, Agree, All-Agree, or_false, str_eq_flip, true-ne-false,
  Update-Recorded, Update-Distinct,
}
use polyglot_ticketing_v.Orders.History.Limit.{
  created-any, pending-canceled, pending-complete, pending_of-canceled,
}

-- A key that is there is no key that is missing.
apart_keys :
    (id k : String) (os : List Order)
    → has_order id os ≡ true
    → has_order k os ≡ false
    → str_eq id k ≡ false
apart_keys id k os has lacks = elim (Bool-cases (str_eq id k)) [
  | inl same ↦
      absurd (true-ne-false (sym has ∙ ap (λ i. has_order i os) ((eq_iff id k).0 same) ∙ lacks))
  | inr other ↦ other
]

module _ (id : String) (condition : Order → Bool) (status : Status) (db : Database)
    (moves : (o : Order) → condition o ≡ true → allowed o.status status ≡ true)
    (h : Accounted db) where
  -- The rows after an update that finds a row, with a log that agrees.
  after_update :
      {m : Order} {rest : List Order}
      → Update id condition status db.orders (some m) rest
      → (after : List OutboxEvent) → Agree id db.outbox_events after
      → creations id after ≡ creations id db.outbox_events
      → cancellations id after ≡ (
          if is_canceled status
          then suc (cancellations id db.outbox_events)
          else cancellations id db.outbox_events)
      → Accounted (record db { orders = rest; outbox_events = after })
  after_update u after agree creation cancellation = record {
    recorded =
        Update-Recorded id condition status moves db.outbox_events after agree creation cancellation
          u h.distinct h.recorded;
    distinct = Update-Distinct id condition status u h.distinct;
    fresh = λ k lacks.
        let lacked = sym (Update-has_order id condition status k u) ∙ lacks in
        let apart = apart_keys id k db.orders (Update-some id condition status u).1 lacked in
        let (no_creation, no_cancellation) = h.fresh k lacked in
        (agree.creation k apart ∙ no_creation, agree.cancellation k apart ∙ no_cancellation);
  }

-- The event of a cancellation.
pub canceled_event-Agree :
    (id ticket_id : String) (version : ℕ) (m_id : String) (events : List OutboxEvent)
    → m_id ≡ id
    → Agree id events (order_canceled m_id ticket_id version ∷ events)
canceled_event-Agree id ticket_id version m_id events key = record {
  creation = λ k apart. refl;
  cancellation = λ k apart. rw (ap (λ i. str_eq i k) key ∙ apart) refl;
}

pub canceled_event-counted :
    (id ticket_id : String) (version : ℕ) (m_id : String) (events : List OutboxEvent)
    → m_id ≡ id
    → cancellations id (order_canceled m_id ticket_id version ∷ events)
      ≡ suc (cancellations id events)
canceled_event-counted id ticket_id version m_id events key = rw ((eq_iff m_id id).1 key) refl

pub cancel_found-Accounted :
    (id : String) (condition : Order → Bool) (db : Database)
    → ((o : Order) → condition o ≡ true → allowed o.status canceled ≡ true)
    → Accounted db
    → (found : Option Order) (rest : List Order) → Update id condition canceled db.orders found rest
    → Accounted (cancel_found (found, rest) db)
cancel_found-Accounted id condition db moves h none rest u = h
cancel_found-Accounted id condition db moves h (some m) rest u =
    let (key, has) = Update-some id condition canceled u in
    after_update id condition canceled db moves h u
      (order_canceled m.id m.ticket_id m.aggregate_version ∷ db.outbox_events)
      (canceled_event-Agree id m.ticket_id m.aggregate_version m.id db.outbox_events key) refl
      (canceled_event-counted id m.ticket_id m.aggregate_version m.id db.outbox_events key)

pub with_orders-Accounted :
    (id : String) (condition : Order → Bool) (status : Status) (db : Database)
    → ((o : Order) → condition o ≡ true → allowed o.status status ≡ true)
    → is_canceled status ≡ false
    → Accounted db
    → (found : Option Order) (rest : List Order) → Update id condition status db.orders found rest
    → Accounted (with_orders (found, rest) db)
with_orders-Accounted id condition status db moves live h none rest u =
    subst (λ os. Accounted (record db { orders = os })) (sym (Update-none id condition status u)) h
with_orders-Accounted id condition status db moves live h (some m) rest u =
    after_update id condition status db moves h u db.outbox_events
      (record { creation = λ k apart. refl; cancellation = λ k apart. refl }) refl (rw live refl)
