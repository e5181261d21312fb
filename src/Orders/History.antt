-- ===== src/Orders/History.antt =====
-- The histories of the orders service: the transactions that gRPC calls and events cause, in any
-- order, with time passing between them. A call whose reply is lost is a transaction like any
-- other; one that fails is none.
pub mod Reservations
pub mod Limit
pub mod Accounts
pub mod Ledger
pub mod Finality
use polyglot_ticketing_v.Base.{
  ℕ, zero, suc, ◌≤◌, String, Bool, true, false, ◌&&◌, List, [], ◌∷◌, str_eq, if◌then◌else◌,
}
use polyglot_ticketing_v.Orders.{
  Ticket, Order, TicketReservationInput, OutboxEvent, order_created, order_canceled, Database,
}
use polyglot_ticketing_v.Orders.Repository.{
  reserve_ticket, cancel_by_id_and_user, apply_expiration_complete, apply_payment_created,
  apply_payment_succeeded, apply_payment_failed, upsert_ticket_from_event, is_open,
}

-- A transaction, with its arguments; a reservation has the id that the database generates.
pub data Action : Type 0 where
  reserve : (id : String) → TicketReservationInput → Action
  cancel : (id user_id : String) → Action
  expiration_complete payment_created payment_succeeded payment_failed :
      (event_id order_id : String) → Action
  ticket_event : (event_id : String) → Ticket → Action

-- The database after a transaction at a time.
abbrev pub perform : ℕ → Action → Database → Database
perform now (reserve id input) db = (reserve_ticket now id input db).1
perform now (cancel id user_id) db = (cancel_by_id_and_user id user_id db).1
perform now (expiration_complete event_id order_id) db =
    apply_expiration_complete event_id order_id db
perform now (payment_created event_id order_id) db = apply_payment_created event_id order_id db
perform now (payment_succeeded event_id order_id) db = apply_payment_succeeded event_id order_id db
perform now (payment_failed event_id order_id) db = apply_payment_failed event_id order_id db
perform now (ticket_event event_id ticket) db = (upsert_ticket_from_event event_id ticket db).1

abbrev pub empty : Database
empty = record { tickets = []; orders = []; processed_events = []; outbox_events = [] }

pub data Reach : ℕ → Database → Type 0 where
  start : Reach 0 empty
  wait : {t : ℕ} {db : Database} (u : ℕ) → t ≤ u → Reach t db → Reach u db
  step : {t : ℕ} {db : Database} (action : Action) → Reach t db → Reach t (perform t action db)

-- The open orders of a ticket: pending, with an expiry that lies ahead.
abbrev pub open_orders : ℕ → String → List Order → ℕ
open_orders now ticket_id [] = 0
open_orders now ticket_id (o ∷ os) =
    let rest = open_orders now ticket_id os in
    if str_eq o.ticket_id ticket_id && is_open now o then suc rest else rest

-- The events of an order in the outbox.
abbrev pub creations : String → List OutboxEvent → ℕ
creations id [] = 0
creations id (order_created o ticket ∷ events) =
    let rest = creations id events in if str_eq o.id id then suc rest else rest
creations id (_ ∷ events) = creations id events

abbrev pub cancellations : String → List OutboxEvent → ℕ
cancellations id [] = 0
cancellations id (order_canceled order_id ticket_id version ∷ events) =
    let rest = cancellations id events in if str_eq order_id id then suc rest else rest
cancellations id (_ ∷ events) = cancellations id events
