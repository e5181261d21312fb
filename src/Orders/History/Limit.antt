-- ===== src/Orders/History/Limit.antt =====
-- In every history a ticket has at most one open order.
use polyglot_ticketing_v.Base.{
  ℕ, ◌≤◌, String, ◌≡◌, refl, Bool, true, false, ◌&&◌, Bool-cases, inl, inr, List, [], ◌∷◌, Result,
  ok, err, contains, str_eq, arith,
}
use polyglot_ticketing_v.Orders.{
  Status, created, canceled, awaiting_payment, complete, Ticket, Order, Database, OrderError,
  is_pending, is_created,
}
use polyglot_ticketing_v.Orders.Repository.{
  TicketEventVersionDecision, apply_ticket_event_version, ignore_ticket_event_version, version_of,
  find_ticket, decide_ticket_event_version, cancel_where, move_where, was_created, was_pending,
  pending_of, update_order, is_open, reserve_ticket, cancel_by_id_and_user,
  apply_expiration_complete, apply_payment_created, apply_payment_succeeded, apply_payment_failed,
  upsert_ticket_from_event, after_decision,
}
use polyglot_ticketing_v.Orders.Repository.Updates.{allowed}
use polyglot_ticketing_v.Orders.History.{
  Action, reserve, cancel, expiration_complete, payment_created, payment_succeeded, payment_failed,
  ticket_event, perform, Reach, start, wait, step, open_orders,
}
use polyglot_ticketing_v.Orders.History.Reservations.{
  Limited, count-less, and-closed, after_ticket-Limited, Update-Limited, cancel_found-Limited,
  after_cancel-Limited, once-Limited,
}

-- The transitions of the transactions.
pub pending-canceled : (s : Status) → is_pending s ≡ true → allowed s canceled ≡ true
pending-canceled created h = refl
pending-canceled awaiting_payment h = refl
pending-canceled canceled h = cc
pending-canceled complete h = cc

pub pending-complete : (s : Status) → is_pending s ≡ true → allowed s complete ≡ true
pending-complete created h = refl
pending-complete awaiting_payment h = refl
pending-complete canceled h = cc
pending-complete complete h = cc

pub created-any :
    (s : Status)
    → is_created s ≡ true
    → (allowed s canceled ≡ true) × (allowed s awaiting_payment ≡ true)
created-any created h = (refl, refl)
created-any awaiting_payment h = cc
created-any canceled h = cc
created-any complete h = cc

pub and_second : (a b : Bool) → (a && b) ≡ true → b ≡ true
and_second true b h = h
and_second false b h = cc

pub pending_of-canceled :
    (user_id : String) (o : Order) → pending_of user_id o ≡ true → allowed o.status canceled ≡ true
pending_of-canceled user_id o c =
    pending-canceled o.status (and_second (str_eq o.user_id user_id) (is_pending o.status) c)

module _ (now : ℕ) where
  after_decision-Limited :
      (ticket : Ticket) (before db : Database) (r : Result OrderError TicketEventVersionDecision)
      → Limited now before
      → Limited now db
      → Limited now (after_decision ticket before db r).1
  after_decision-Limited ticket before db (err e) hb hd = hb
  after_decision-Limited ticket before db (ok ignore_ticket_event_version) hb hd = hd
  after_decision-Limited ticket before db (ok apply_ticket_event_version) hb hd = hd

  upsert-Limited :
      (event_id : String) (ticket : Ticket) (db : Database)
      → Limited now db
      → Limited now (upsert_ticket_from_event event_id ticket db).1
  unfolding upsert_ticket_from_event
  upsert-Limited event_id ticket db h ticket_id =
      elim (Bool-cases (contains db.processed_events event_id)) [
        | inl seen ↦ rw seen (h ticket_id)
        | inr new ↦ rw new (
            after_decision-Limited ticket db
              (record db { processed_events = event_id ∷ db.processed_events })
              (decide_ticket_event_version (version_of (find_ticket ticket.id db.tickets))
                ticket.aggregate_version)
              h h ticket_id)
      ]

  cancel_where-Limited :
      (condition : Order → Bool) (order_id : String)
      → ((o : Order) → condition o ≡ true → allowed o.status canceled ≡ true)
      → (db : Database) → Limited now db
      → Limited now (cancel_where condition order_id db)
  cancel_where-Limited condition order_id moves db h =
      cancel_found-Limited now (update_order order_id condition canceled db.orders) db
        (λ t. Update-Limited now order_id condition canceled db moves t (h t)) h

  move_where-Limited :
      (condition : Order → Bool) (status : Status) (order_id : String)
      → ((o : Order) → condition o ≡ true → allowed o.status status ≡ true)
      → (db : Database) → Limited now db
      → Limited now (move_where condition status order_id db)
  move_where-Limited condition status order_id moves db h t =
      Update-Limited now order_id condition status db moves t (h t)

  perform-Limited :
      (action : Action) (db : Database) → Limited now db → Limited now (perform now action db)
  unfolding reserve_ticket cancel_by_id_and_user apply_expiration_complete apply_payment_created
      apply_payment_succeeded apply_payment_failed
  perform-Limited (reserve id input) db h = after_ticket-Limited now id input db _ refl h
  perform-Limited (cancel id user_id) db h =
      after_cancel-Limited now id user_id (update_order id (pending_of user_id) canceled db.orders)
        db
        (λ t.
          Update-Limited now id (pending_of user_id) canceled db (pending_of-canceled user_id) t
            (h t))
        h
  perform-Limited (expiration_complete event_id order_id) db h =
      once-Limited now event_id (cancel_where was_created order_id) db
        (cancel_where-Limited was_created order_id λ o c. (created-any o.status c).0) h
  perform-Limited (payment_created event_id order_id) db h =
      once-Limited now event_id (move_where was_created awaiting_payment order_id) db
        (move_where-Limited was_created awaiting_payment order_id λ o c. (created-any o.status c).1)
        h
  perform-Limited (payment_succeeded event_id order_id) db h =
      once-Limited now event_id (move_where was_pending complete order_id) db
        (move_where-Limited was_pending complete order_id λ o c. pending-complete o.status c) h
  perform-Limited (payment_failed event_id order_id) db h =
      once-Limited now event_id (cancel_where was_pending order_id) db
        (cancel_where-Limited was_pending order_id λ o c. pending-canceled o.status c) h
  perform-Limited (ticket_event event_id ticket) db h = upsert-Limited event_id ticket db h

closed-later : (t u : ℕ) (o : Order) → t ≤ u → is_open t o ≡ false → is_open u o ≡ false
closed-later t u o h closed = ground arith

open_orders-later :
    (t u : ℕ) (ticket_id : String) (os : List Order)
    → t ≤ u
    → open_orders u ticket_id os ≤ open_orders t ticket_id os
open_orders-later t u ticket_id [] h = omega arith
open_orders-later t u ticket_id (o ∷ os) h =
    count-less _ _ _ _ (open_orders-later t u ticket_id os h)
      (and-closed (str_eq o.ticket_id ticket_id) (is_open t o) (is_open u o) (closed-later t u o h))

-- In every history of reservations, cancellations, expirations, payment events and ticket events, in
-- any order and with any repetition, a ticket has at most one open order at a time: one that is
-- pending and whose expiry lies ahead.
pub open_orders_limited :
    {now : ℕ} {db : Database}
    → Reach now db
    → (ticket_id : String) → open_orders now ticket_id db.orders ≤ 1
open_orders_limited start ticket_id = omega arith
open_orders_limited (wait {t} {db} u later reach) ticket_id =
    omega
      (arith, open_orders-later t u ticket_id db.orders later, open_orders_limited reach ticket_id)
open_orders_limited (step {t} {db} action reach) ticket_id =
    perform-Limited t action db (open_orders_limited reach) ticket_id
