-- ===== src/Orders/History/Finality/Histories.antt =====
-- An order that is complete or canceled, over the histories.
use polyglot_ticketing_v.Base.{
  ℕ, String, ◌≡◌, Bool, true, false, Bool-cases, inl, inr, some, ◌∷◌, Result, ok, err, contains,
}
use polyglot_ticketing_v.Orders.{
  Status, canceled, awaiting_payment, complete, Ticket, Order, OrderError, Database, is_pending,
}
use polyglot_ticketing_v.Orders.Repository.{
  TicketEventVersionDecision, apply_ticket_event_version, ignore_ticket_event_version, version_of,
  find_ticket, decide_ticket_event_version, update_order, reserve_ticket, cancel_by_id_and_user,
  cancel_where, move_where, was_created, was_pending, pending_of, apply_expiration_complete,
  apply_payment_created, apply_payment_succeeded, apply_payment_failed, upsert_ticket_from_event,
  after_decision,
}
use polyglot_ticketing_v.Orders.Repository.Updates.{allowed, update_order-Update}
use polyglot_ticketing_v.Orders.History.{
  Action, reserve, cancel, expiration_complete, payment_created, payment_succeeded, payment_failed,
  ticket_event, perform,
}
use polyglot_ticketing_v.Orders.History.Limit.{
  created-any, pending-canceled, pending-complete, pending_of-canceled,
}
use polyglot_ticketing_v.Orders.History.Finality.{
  status_of, Has, Update-Has, after_ticket-Has, cancel_found-Has, after_cancel-Has, once-Has,
}

-- The databases that a history reaches from a database.
pub data Leads : Database → Database → Type 0 where
  stay : {db : Database} → Leads db db
  go_on :
      {db later : Database} (now : ℕ) (action : Action)
      → Leads db later
      → Leads db (perform now action later)

module _ (id : String) (s : Status) (final : is_pending s ≡ false) where
  after_decision-Has :
      (ticket : Ticket) (before db : Database) (r : Result OrderError TicketEventVersionDecision)
      → Has id s final before.orders
      → Has id s final db.orders
      → Has id s final (after_decision ticket before db r).1.orders
  after_decision-Has ticket before db (err e) hb hd = hb
  after_decision-Has ticket before db (ok ignore_ticket_event_version) hb hd = hd
  after_decision-Has ticket before db (ok apply_ticket_event_version) hb hd = hd

  upsert-Has :
      (event_id : String) (ticket : Ticket) (db : Database)
      → Has id s final db.orders
      → Has id s final (upsert_ticket_from_event event_id ticket db).1.orders
  unfolding upsert_ticket_from_event
  upsert-Has event_id ticket db h = elim (Bool-cases (contains db.processed_events event_id)) [
    | inl seen ↦ rw seen h
    | inr new ↦ rw new (
        after_decision-Has ticket db
          (record db { processed_events = event_id ∷ db.processed_events })
          (decide_ticket_event_version (version_of (find_ticket ticket.id db.tickets))
            ticket.aggregate_version)
          h h)
  ]

  move_where-Has :
      (condition : Order → Bool) (status : Status) (key : String)
      → ((o : Order) → condition o ≡ true → allowed o.status status ≡ true)
      → (db : Database) → Has id s final db.orders
      → Has id s final (move_where condition status key db).orders
  move_where-Has condition status key moves db h =
      Update-Has id s final key condition status moves
        (update_order-Update key condition status db.orders) h

  cancel_where-Has :
      (condition : Order → Bool) (key : String)
      → ((o : Order) → condition o ≡ true → allowed o.status canceled ≡ true)
      → (db : Database) → Has id s final db.orders
      → Has id s final (cancel_where condition key db).orders
  cancel_where-Has condition key moves db h =
      cancel_found-Has id s final (update_order key condition canceled db.orders) db
        (move_where-Has condition canceled key moves db h) h

  perform-Has :
      (now : ℕ) (action : Action) (db : Database)
      → Has id s final db.orders
      → Has id s final (perform now action db).orders
  unfolding reserve_ticket cancel_by_id_and_user apply_expiration_complete apply_payment_created
      apply_payment_succeeded apply_payment_failed
  perform-Has now (reserve key input) db h = after_ticket-Has id s final now key input db _ h
  perform-Has now (cancel key user_id) db h =
      after_cancel-Has id s final key user_id
        (update_order key (pending_of user_id) canceled db.orders) db
        (move_where-Has (pending_of user_id) canceled key (pending_of-canceled user_id) db h) h
  perform-Has now (expiration_complete event_id key) db h =
      once-Has id s final event_id (cancel_where was_created key) db
        (cancel_where-Has was_created key λ o c. (created-any o.status c).0) h
  perform-Has now (payment_created event_id key) db h =
      once-Has id s final event_id (move_where was_created awaiting_payment key) db
        (move_where-Has was_created awaiting_payment key λ o c. (created-any o.status c).1) h
  perform-Has now (payment_succeeded event_id key) db h =
      once-Has id s final event_id (move_where was_pending complete key) db
        (move_where-Has was_pending complete key λ o c. pending-complete o.status c) h
  perform-Has now (payment_failed event_id key) db h =
      once-Has id s final event_id (cancel_where was_pending key) db
        (cancel_where-Has was_pending key λ o c. pending-canceled o.status c) h
  perform-Has now (ticket_event event_id ticket) db h = upsert-Has event_id ticket db h

-- An order that is complete or canceled keeps its status, whatever reservations, cancellations,
-- expirations, payment events and ticket events follow, in any order and at any times.
pub final_orders_stay :
    (id : String) (s : Status)
    → is_pending s ≡ false
    → {db later : Database} → Leads db later
    → status_of id db.orders ≡ some s
    → status_of id later.orders ≡ some s
final_orders_stay id s final stay h = h
final_orders_stay id s final (go_on {db} {later} now action leads) h =
    perform-Has id s final now action later (final_orders_stay id s final leads h)
