-- ===== src/Orders/Repository.antt =====
-- The transactions of apps/orders/internal/order/postgres_repository.go. Postgres is third-party:
-- a statement is the function on the rows that its text says, and an error or a rollback leaves
-- the database as it is. Keys are in the canonical text of a UUID, as a cast to a UUID leaves them.
pub mod Updates
pub mod Blocking
use polyglot_ticketing_v.Base.{
  ℕ, suc, ◌+◌, String, Bool, true, false, not, ◌&&◌, ◌||◌, Option, none, some, List, [], ◌∷◌, any,
  all, Result, ok, err, leb, ltb, ◌==◌, str_eq, contains, if◌then◌else◌,
}
use polyglot_ticketing_v.Orders.{
  Status, created, canceled, awaiting_payment, complete, Ticket, Order, TicketReservationInput,
  ReservationResult, OrderError, not_found, order_not_cancelable, order_not_found, reserved,
  ticket_event_version_gap, duplicate_key, OutboxEvent, order_created, order_canceled, Database,
  is_pending, is_created, is_complete, is_canceled,
}

abbrev pub Transaction {ℓ} : Type ℓ → Type ℓ
Transaction A = Result OrderError A × Database

abbrev pub find_ticket : String → List Ticket → Option Ticket
find_ticket id [] = none
find_ticket id (t ∷ ts) = if str_eq t.id id then some t else find_ticket id ts

-- The condition of `findBlockingOrder`.
abbrev pub is_open : ℕ → Order → Bool
is_open now o = is_pending o.status && ltb now o.expires_at

abbrev pub blocks : ℕ → String → Order → Bool
blocks now ticket_id o = str_eq o.ticket_id ticket_id && (is_complete o.status || is_open now o)

-- Its order: a complete order first, then the later expiry.
abbrev pub precedes : Order → Order → Bool
precedes o p =
    if is_complete o.status
    then not (is_complete p.status) || leb p.expires_at o.expires_at
    else not (is_complete p.status) && leb p.expires_at o.expires_at

abbrev pub better : Order → Option Order → Order
better o none = o
better o (some p) = if precedes o p then o else p

unfoldable pub find_blocking_order : ℕ → String → List Order → Option Order
find_blocking_order now ticket_id [] = none
find_blocking_order now ticket_id (o ∷ os) =
    let rest = find_blocking_order now ticket_id os in
    if blocks now ticket_id o then some (better o rest) else rest

abbrev pub has_order : String → List Order → Bool
has_order id orders = any (λ o. str_eq o.id id) orders

-- `UPDATE orders SET status = ..., aggregate_version = aggregate_version + 1 WHERE id = ... AND ...
-- RETURNING`: the changed row, if there is one, and the rows after it.
unfoldable pub update_order :
    String → (Order → Bool) → Status → List Order → Option Order × List Order
update_order id condition status [] = (none, [])
update_order id condition status (o ∷ os) =
    let (found, rest) = update_order id condition status os in
    let moved : Order = record o { status = status; aggregate_version = o.aggregate_version + 1 } in
    if str_eq o.id id
    then (if condition o then (some moved, moved ∷ os) else (none, o ∷ os))
    else (found, o ∷ rest)

-- `ReserveTicket` with the id that the database generates, at the time `NOW()`.
abbrev pub after_find :
    String
    → TicketReservationInput
    → Ticket
    → Database
    → Option Order
    → Transaction ReservationResult
after_find id input ticket db (some existing) =
    if str_eq existing.user_id input.user_id && not (is_complete existing.status)
    then (ok (record { created = false; order = existing }), db)
    else (err reserved, db)
after_find id input ticket db none =
    if has_order id db.orders
    then (err duplicate_key, db)
    else (let created_order : Order = record {
      aggregate_version = 0;
      expires_at = input.expires_at;
      id = id;
      status = created;
      ticket_id = input.ticket_id;
      user_id = input.user_id;
    } in
        (
          ok (record { created = true; order = created_order }),
          record db {
            orders = created_order ∷ db.orders;
            outbox_events = order_created created_order ticket ∷ db.outbox_events;
          },
        ))

abbrev pub after_ticket :
    ℕ → String → TicketReservationInput → Database → Option Ticket → Transaction ReservationResult
after_ticket now id input db none = (err not_found, db)
after_ticket now id input db (some ticket) =
    after_find id input ticket db (find_blocking_order now ticket.id db.orders)

unfoldable pub reserve_ticket :
    ℕ → String → TicketReservationInput → Database → Transaction ReservationResult
unfolding find_blocking_order
reserve_ticket now id input db =
    after_ticket now id input db (find_ticket input.ticket_id db.tickets)

abbrev pub owned : String → String → Order → Bool
owned id user_id o = str_eq o.id id && str_eq o.user_id user_id

abbrev pub find_owned : String → String → List Order → Option Order
find_owned id user_id [] = none
find_owned id user_id (o ∷ os) = if owned id user_id o then some o else find_owned id user_id os

unfoldable pub get_by_id_and_user : String → String → Database → Result OrderError Order
get_by_id_and_user id user_id db = elim (find_owned id user_id db.orders) [
  | none ↦ err order_not_found
  | some found ↦ ok found
]

-- `insertOrderCanceledEvent`
abbrev pub insert_order_canceled_event : Order → List Order → Database → Database
insert_order_canceled_event o orders db = record db {
  orders = orders;
  outbox_events = order_canceled o.id o.ticket_id o.aggregate_version ∷ db.outbox_events;
}

-- What `CancelByIDAndUser` does where its update finds no row.
abbrev pub not_canceled : Option Order → Result OrderError Order
not_canceled none = err order_not_found
not_canceled (some found) = if is_canceled found.status then ok found else err order_not_cancelable

abbrev pub after_cancel : String → String → Database → Option Order × List Order → Transaction Order
after_cancel id user_id db (some o, orders) = (ok o, insert_order_canceled_event o orders db)
after_cancel id user_id db (none, orders) = (not_canceled (find_owned id user_id db.orders), db)

abbrev pub pending_of : String → Order → Bool
pending_of user_id o = str_eq o.user_id user_id && is_pending o.status

unfoldable pub cancel_by_id_and_user : String → String → Database → Transaction Order
unfolding update_order
cancel_by_id_and_user id user_id db =
    after_cancel id user_id db (update_order id (pending_of user_id) canceled db.orders)

-- `INSERT INTO processed_events ... ON CONFLICT DO NOTHING`, and then, for an event that is new,
-- what the delivery changes.
abbrev pub once : String → (Database → Database) → Database → Database
once event_id apply db =
    if contains db.processed_events event_id
    then db
    else apply (record db { processed_events = event_id ∷ db.processed_events })

-- A cancellation with its event, or nothing where no row is changed.
abbrev pub cancel_found : Option Order × List Order → Database → Database
cancel_found (none, orders) db = db
cancel_found (some o, orders) db = insert_order_canceled_event o orders db

abbrev pub with_orders : Option Order × List Order → Database → Database
with_orders (found, orders) db = record db { orders = orders }

abbrev pub cancel_where : (Order → Bool) → String → Database → Database
cancel_where condition order_id db =
    cancel_found (update_order order_id condition canceled db.orders) db

abbrev pub move_where : (Order → Bool) → Status → String → Database → Database
move_where condition status order_id db =
    with_orders (update_order order_id condition status db.orders) db

-- The conditions of the updates, `status = 'Created'` and `status IN ('Created',
-- 'AwaitingPayment')`.
abbrev pub was_created : Order → Bool
was_created o = is_created o.status

abbrev pub was_pending : Order → Bool
was_pending o = is_pending o.status

unfoldable pub apply_expiration_complete : String → String → Database → Database
unfolding update_order
apply_expiration_complete event_id order_id = once event_id (cancel_where was_created order_id)

unfoldable pub apply_payment_created : String → String → Database → Database
unfolding update_order
apply_payment_created event_id order_id =
    once event_id (move_where was_created awaiting_payment order_id)

unfoldable pub apply_payment_succeeded : String → String → Database → Database
unfolding update_order
apply_payment_succeeded event_id order_id = once event_id (move_where was_pending complete order_id)

unfoldable pub apply_payment_failed : String → String → Database → Database
unfolding update_order
apply_payment_failed event_id order_id = once event_id (cancel_where was_pending order_id)

pub data TicketEventVersionDecision : Type 0 where
  apply_ticket_event_version ignore_ticket_event_version : TicketEventVersionDecision

-- `none` where no version is stored.
unfoldable pub decide_ticket_event_version :
    Option ℕ → ℕ → Result OrderError TicketEventVersionDecision
decide_ticket_event_version none incoming =
    if incoming == 0 then ok apply_ticket_event_version else err ticket_event_version_gap
decide_ticket_event_version (some stored) incoming =
    if ltb (stored + 1) incoming
    then err ticket_event_version_gap
    else if leb incoming stored
    then ok ignore_ticket_event_version
    else ok apply_ticket_event_version

abbrev pub version_of : Option Ticket → Option ℕ
version_of none = none
version_of (some t) = some t.aggregate_version

-- The insertion of a ticket, or the update of the row with its id.
abbrev pub put_ticket : Ticket → List Ticket → List Ticket
put_ticket ticket [] = ticket ∷ []
put_ticket ticket (t ∷ ts) = if str_eq t.id ticket.id then ticket ∷ ts else t ∷ put_ticket ticket ts

abbrev pub after_decision :
    Ticket
    → Database
    → Database
    → Result OrderError TicketEventVersionDecision
    → Transaction (Unit {0})
after_decision ticket before db (err e) = (err e, before)
after_decision ticket before db (ok ignore_ticket_event_version) = (ok tt, db)
after_decision ticket before db (ok apply_ticket_event_version) =
    (ok tt, record db { tickets = put_ticket ticket db.tickets })

-- A gap rolls the record of the event back.
unfoldable pub upsert_ticket_from_event : String → Ticket → Database → Transaction (Unit {0})
unfolding decide_ticket_event_version
upsert_ticket_from_event event_id ticket db =
    if contains db.processed_events event_id
    then (ok tt, db)
    else after_decision ticket db (record db { processed_events = event_id ∷ db.processed_events })
        (decide_ticket_event_version (version_of (find_ticket ticket.id db.tickets))
          ticket.aggregate_version)
