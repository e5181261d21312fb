-- ===== src/Orders/History/Ledger/Histories.antt =====
-- In every history the outbox agrees with the orders.
use polyglot_ticketing_v.Base.{
  ℕ, suc, String, ◌≡◌, refl, ap, Bool, true, false, ◌&&◌, not, Bool-cases, inl, inr, Option, none,
  some, List, ◌∷◌, Result, ok, err, contains, str_eq, eq_iff,
}
use polyglot_ticketing_v.Orders.{
  Status, created, canceled, awaiting_payment, complete, Ticket, Order, TicketReservationInput,
  OrderError, order_created, Database, is_canceled, is_complete,
}
use polyglot_ticketing_v.Orders.Repository.{
  TicketEventVersionDecision, apply_ticket_event_version, ignore_ticket_event_version, version_of,
  find_ticket, decide_ticket_event_version, update_order, has_order, find_blocking_order,
  after_find, after_ticket, reserve_ticket, after_cancel, cancel_by_id_and_user, once, cancel_found,
  cancel_where, move_where, was_created, was_pending, pending_of, apply_expiration_complete,
  apply_payment_created, apply_payment_succeeded, apply_payment_failed, upsert_ticket_from_event,
  after_decision,
}
use polyglot_ticketing_v.Orders.Repository.Updates.{allowed, update_order-Update}
use polyglot_ticketing_v.Orders.History.{
  Action, reserve, cancel, expiration_complete, payment_created, payment_succeeded, payment_failed,
  ticket_event, perform, Reach, start, wait, step,
}
use polyglot_ticketing_v.Orders.History.Accounts.{Recorded, Accounted, All-Agree, or_false}
use polyglot_ticketing_v.Orders.History.Ledger.{cancel_found-Accounted, with_orders-Accounted}
use polyglot_ticketing_v.Orders.History.Limit.{
  created-any, pending-canceled, pending-complete, pending_of-canceled,
}

-- The other tables do not matter.
beside :
    (db : Database) (tickets : List Ticket) (processed_events : List String)
    → Accounted db
    → Accounted (record db { tickets = tickets; processed_events = processed_events })
beside db tickets processed_events h = record {
  recorded = h.recorded;
  distinct = h.distinct;
  fresh = h.fresh;
}

-- A new row, with its event.
inserted-Accounted :
    (o : Order) (ticket : Ticket) (db : Database)
    → has_order o.id db.orders ≡ false
    → is_canceled o.status ≡ false
    → Recorded (order_created o ticket ∷ db.outbox_events) o
    → Accounted db
    → Accounted (record db {
      orders = o ∷ db.orders;
      outbox_events = order_created o ticket ∷ db.outbox_events;
    })
inserted-Accounted o ticket db absent live row h = record {
  recorded = (
    row,
    All-Agree o.id db.outbox_events (order_created o ticket ∷ db.outbox_events)
        (record { creation = λ k apart. rw apart refl; cancellation = λ k apart. refl }) db.orders
        absent h.recorded,
  );
  distinct = (absent, h.distinct);
  fresh = λ k lacks.
      let (apart, below) = or_false (str_eq o.id k) (has_order k db.orders) lacks in
      let (no_creation, no_cancellation) = h.fresh k below in
      (rw apart no_creation, no_cancellation);
}

new_row :
    (input : TicketReservationInput) (id : String) (ticket : Ticket) (db : Database)
    → has_order id db.orders ≡ false
    → Accounted db
    → Accounted (after_find id input ticket db none).1
new_row input id ticket db absent h =
    let (no_creation, no_cancellation) = h.fresh id absent in
    let o : Order = record {
      aggregate_version = 0;
      expires_at = input.expires_at;
      id = id;
      status = created;
      ticket_id = input.ticket_id;
      user_id = input.user_id;
    } in
    rw absent (
      inserted-Accounted o ticket db absent refl
        (record {
          creation = rw ((eq_iff id id).1 refl) (ap (λ n. suc n) no_creation);
          cancellation = no_cancellation;
          version = refl;
        })
        h)

after_find-Accounted :
    (id : String) (input : TicketReservationInput) (ticket : Ticket) (db : Database)
    (found : Option Order)
    → Accounted db
    → Accounted (after_find id input ticket db found).1
after_find-Accounted id input ticket db (some existing) h =
    elim (Bool-cases (str_eq existing.user_id input.user_id && not (is_complete existing.status))) [
      | inl own ↦ rw own h
      | inr other ↦ rw other h
    ]
after_find-Accounted id input ticket db none h = elim (Bool-cases (has_order id db.orders)) [
  | inl taken ↦ rw taken h
  | inr free ↦ new_row input id ticket db free h
]

after_ticket-Accounted :
    (now : ℕ) (id : String) (input : TicketReservationInput) (db : Database) (found : Option Ticket)
    → Accounted db
    → Accounted (after_ticket now id input db found).1
after_ticket-Accounted now id input db none h = h
after_ticket-Accounted now id input db (some ticket) h =
    after_find-Accounted id input ticket db (find_blocking_order now ticket.id db.orders) h

after_cancel-Accounted :
    (id user_id : String) (u : Option Order × List Order) (db : Database)
    → Accounted (cancel_found u db)
    → Accounted db
    → Accounted (after_cancel id user_id db u).1
after_cancel-Accounted id user_id (none, orders) db after h = h
after_cancel-Accounted id user_id (some o, orders) db after h = after

once-Accounted :
    (event_id : String) (apply : Database → Database) (db : Database)
    → ((d : Database) → Accounted d → Accounted (apply d))
    → Accounted db
    → Accounted (once event_id apply db)
once-Accounted event_id apply db keeps h =
    elim (Bool-cases (contains db.processed_events event_id)) [
      | inl seen ↦ rw seen h
      | inr new ↦ rw new (
          keeps (record db { processed_events = event_id ∷ db.processed_events })
            (beside db db.tickets (event_id ∷ db.processed_events) h))
    ]

after_decision-Accounted :
    (ticket : Ticket) (before db : Database) (r : Result OrderError TicketEventVersionDecision)
    → Accounted before
    → Accounted db
    → Accounted (after_decision ticket before db r).1
after_decision-Accounted ticket before db (err e) hb hd = hb
after_decision-Accounted ticket before db (ok ignore_ticket_event_version) hb hd = hd
after_decision-Accounted ticket before db (ok apply_ticket_event_version) hb hd =
    beside db _ db.processed_events hd

upsert-Accounted :
    (event_id : String) (ticket : Ticket) (db : Database)
    → Accounted db
    → Accounted (upsert_ticket_from_event event_id ticket db).1
unfolding upsert_ticket_from_event
upsert-Accounted event_id ticket db h = elim (Bool-cases (contains db.processed_events event_id)) [
  | inl seen ↦ rw seen h
  | inr new ↦ rw new (
      after_decision-Accounted ticket db
        (record db { processed_events = event_id ∷ db.processed_events })
        (decide_ticket_event_version (version_of (find_ticket ticket.id db.tickets))
          ticket.aggregate_version)
        h (beside db db.tickets (event_id ∷ db.processed_events) h))
]

cancel_where-Accounted :
    (condition : Order → Bool) (order_id : String)
    → ((o : Order) → condition o ≡ true → allowed o.status canceled ≡ true)
    → (db : Database) → Accounted db
    → Accounted (cancel_where condition order_id db)
cancel_where-Accounted condition order_id moves db h =
    cancel_found-Accounted order_id condition db moves h _ _
      (update_order-Update order_id condition canceled db.orders)

move_where-Accounted :
    (condition : Order → Bool) (status : Status) (order_id : String)
    → ((o : Order) → condition o ≡ true → allowed o.status status ≡ true)
    → is_canceled status ≡ false
    → (db : Database) → Accounted db
    → Accounted (move_where condition status order_id db)
move_where-Accounted condition status order_id moves live db h =
    with_orders-Accounted order_id condition status db moves live h _ _
      (update_order-Update order_id condition status db.orders)

perform-Accounted :
    (now : ℕ) (action : Action) (db : Database) → Accounted db → Accounted (perform now action db)
unfolding reserve_ticket cancel_by_id_and_user apply_expiration_complete apply_payment_created
    apply_payment_succeeded apply_payment_failed
perform-Accounted now (reserve id input) db h =
    after_ticket-Accounted now id input db (find_ticket input.ticket_id db.tickets) h
perform-Accounted now (cancel id user_id) db h =
    after_cancel-Accounted id user_id (update_order id (pending_of user_id) canceled db.orders) db
      (cancel_where-Accounted (pending_of user_id) id (pending_of-canceled user_id) db h) h
perform-Accounted now (expiration_complete event_id order_id) db h =
    once-Accounted event_id (cancel_where was_created order_id) db
      (cancel_where-Accounted was_created order_id λ o c. (created-any o.status c).0) h
perform-Accounted now (payment_created event_id order_id) db h =
    once-Accounted event_id (move_where was_created awaiting_payment order_id) db
      (move_where-Accounted was_created awaiting_payment order_id
        (λ o c. (created-any o.status c).1) refl)
      h
perform-Accounted now (payment_succeeded event_id order_id) db h =
    once-Accounted event_id (move_where was_pending complete order_id) db
      (move_where-Accounted was_pending complete order_id (λ o c. pending-complete o.status c) refl)
      h
perform-Accounted now (payment_failed event_id order_id) db h =
    once-Accounted event_id (cancel_where was_pending order_id) db
      (cancel_where-Accounted was_pending order_id λ o c. pending-canceled o.status c) h
perform-Accounted now (ticket_event event_id ticket) db h = upsert-Accounted event_id ticket db h

-- In every history the keys of the orders are distinct, and each order has one OrderCreated event in
-- the outbox and one OrderCanceled event exactly where it is canceled, however often events are
-- delivered; its version is at most 2, and there is no event of an order that is not there.
pub outbox-Accounted : {now : ℕ} {db : Database} → Reach now db → Accounted db
outbox-Accounted start = record { recorded = tt; distinct = tt; fresh = λ k lacks. (refl, refl) }
outbox-Accounted (wait u later reach) = outbox-Accounted reach
outbox-Accounted (step {t} {db} action reach) =
    perform-Accounted t action db (outbox-Accounted reach)
