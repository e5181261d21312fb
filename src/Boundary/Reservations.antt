-- ===== src/Boundary/Reservations.antt =====
-- A reservation through the gateway, apps/api-gateway/src/orders, and the orders service: what the
-- client is to be told of it.
pub mod Client
pub mod Answers
use polyglot_ticketing_v.Base.{
  ℕ, pos, ◌+◌, ◌*◌, ◌/◌, ◌%◌, ◌≤◌, String, ◌≡◌, refl, sym, ap, ◌∙◌, Bool, true, false, ◌&&◌, not,
  Bool-cases, inl, inr, Option, none, some, List, [], ◌∷◌, All, Result, ok, err, map_err, ◌>>=◌,
  str_eq, if◌then◌else◌, arith,
}
use polyglot_ticketing_v.Value.{Value}
use polyglot_ticketing_v.Value.Json.{Json, RoundTrips}
use polyglot_ticketing_v.Contracts.ErrorItem.{ErrorItem}
use polyglot_ticketing_v.Contracts.OrderStatus
use polyglot_ticketing_v.Platform.Metadata.{MetadataApi}
use polyglot_ticketing_v.Platform.Dates.{DateApi, last_time}
use polyglot_ticketing_v.Gateway.Errors
use polyglot_ticketing_v.Gateway.Errors.{
  http_status_from_grpc_code, as_error_item, throw_gateway_grpc_error,
}
use polyglot_ticketing_v.Gateway.Errors.Contract.{ItemWriter}
use polyglot_ticketing_v.Gateway.Errors.Backend.{grpc_error, catch-throw_gateway_grpc_error}
use polyglot_ticketing_v.Gateway.Errors.Filter.{Reply, catch}
use polyglot_ticketing_v.Gateway.Dates.{to_date, iso_string}
use polyglot_ticketing_v.Gateway.Identity.AuthService.{IdentityGrpcService, invalid_item}
use polyglot_ticketing_v.Gateway.Orders
use polyglot_ticketing_v.Gateway.Orders.{
  RestStatus, OrderResponse, OrderCreationResult, OrdersGrpcService, CreateOrderGrpcResponse,
}
use polyglot_ticketing_v.Orders.{
  Status, created, canceled, awaiting_payment, complete, Ticket, Order, TicketReservationInput,
  ReservationResult, Database, expiration_window, is_complete,
}
use polyglot_ticketing_v.Orders.Repository.{
  find_ticket, find_blocking_order, blocks, better, precedes, has_order, reserve_ticket,
}
use polyglot_ticketing_v.Base.Text.{every}
use polyglot_ticketing_v.Base.{◌||◌, leb, ◌==◌}
use polyglot_ticketing_v.Gateway.Errors.Secrecy.{fault_reply}
use polyglot_ticketing_v.Orders.Repository.Blocking.{Finds, Blocking}
use polyglot_ticketing_v.Orders.Service
use polyglot_ticketing_v.Orders.Service.{
  is_blank, invalid_field, code_string, validate_ticket_reservation, validate_order_user,
}
use polyglot_ticketing_v.Orders.Server
use polyglot_ticketing_v.Orders.Server.{StatusError, item_value, payload}
use polyglot_ticketing_v.Boundary.Replies.{client_reply, wire_reply}

pub item_value-accepted : (e : ErrorItem) → Errors.is_error_item (item_value e) ≡ true
unfolding Errors.is_error_item item_value
item_value-accepted e = ground arith

pub item_value-read : (e : ErrorItem) → as_error_item (item_value e) ≡ e
unfolding as_error_item item_value
item_value-read e = ground arith

abbrev pub orders_writer : ItemWriter
orders_writer = record {
  write = item_value;
  accepted = item_value-accepted;
  read = item_value-read;
}

-- The error that the gateway's client throws for a status of the orders service; `stringify` is here
-- the writer of that service.
abbrev pub to_wire : Json → StatusError → Value
to_wire json e = grpc_error (pos e.code) (json.stringify (payload e))

abbrev pub item : String → String → ErrorItem
item code message = record { code = code; message = message; field = none }

abbrev pub field_item : String → String → ErrorItem
field_item field message = record {
  code = "INVALID_ARGUMENT";
  message = message;
  field = some field;
}

abbrev pub rest_status : Status → RestStatus
rest_status created = RestStatus.created
rest_status canceled = RestStatus.canceled
rest_status awaiting_payment = RestStatus.awaiting_payment
rest_status complete = RestStatus.complete

-- An order as the client sees it, with the text of its expiry.
abbrev pub shown : (ℕ → String) → Order → OrderResponse
shown iso o = record {
  expires_at = iso o.expires_at;
  id = o.id;
  status = rest_status o.status;
  ticket_id = o.ticket_id;
  user_id = o.user_id;
}

abbrev pub shown_result : (ℕ → String) → ReservationResult → OrderCreationResult
shown_result iso r = record { created = r.created; order = shown iso r.order }

abbrev pub refused : Result Reply OrderCreationResult
refused = err (client_reply 409 (item "ALREADY_EXISTS" "Ticket is currently reserved." ∷ []))

-- The answer, by the order that stands in the way: whether it is the user's own, and its status.
abbrev pub owner_answer : (ℕ → String) → Order → Bool → Status → Result Reply OrderCreationResult
owner_answer iso o false status = refused
owner_answer iso o true complete = refused
owner_answer iso o true status = ok (record { created = false; order = shown iso o })

abbrev pub order_answer : (ℕ → String) → Order → Option Order → Result Reply OrderCreationResult
order_answer iso new_order none = ok (record { created = true; order = shown iso new_order })
order_answer iso new_order (some o) =
    owner_answer iso o (str_eq o.user_id new_order.user_id) o.status

abbrev pub ticket_answer :
    (ℕ → String)
    → Order
    → (String → Option Order)
    → Option Ticket
    → Result Reply OrderCreationResult
ticket_answer iso new_order blocking none =
    err (client_reply 404 (item "NOT_FOUND" "Ticket not found." ∷ []))
ticket_answer iso new_order blocking (some ticket) = order_answer iso new_order (blocking ticket.id)

abbrev pub key_answer :
    (ℕ → String)
    → (String → Order)
    → (String → Option Ticket)
    → (String → Option Order)
    → Option String
    → Result Reply OrderCreationResult
key_answer iso new_order ticket blocking none = err (fault_reply 500)
key_answer iso new_order ticket blocking (some key) =
    ticket_answer iso (new_order key) blocking (ticket key)

-- The white space of Unicode.
abbrev pub is_white : ℕ → Bool
is_white c =
    leb 9 c && leb c 13
    || c == 32
    || c == 0x85
    || c == 160
    || c == 0x1680
    || leb 0x2000 c && leb c 0x200a
    || c == 0x2028
    || c == 0x2029
    || c == 0x202f
    || c == 0x205f
    || c == 0x3000

-- The answer to a reservation that would make an order of a ticket's key.
abbrev pub reservation_answer :
    (String → Bool)
    → (String → Option String)
    → (ℕ → String)
    → (String → Order)
    → (String → Option Ticket)
    → (String → Option Order)
    → String
    → String
    → Result Reply OrderCreationResult
reservation_answer is_uuid cast iso new_order ticket blocking ticket_id user_id =
    if not (is_uuid ticket_id)
    then err (client_reply 400 (field_item "ticketId" "Ticket ID must be a valid UUID." ∷ []))
    else if every is_white user_id
    then err (client_reply 400 (field_item "userId" "Order user is required." ∷ []))
    else key_answer iso new_order ticket blocking (cast ticket_id)

-- The order that a reservation makes of a ticket's key.
abbrev pub order_of : ℕ → String → String → String → Order
order_of clock id user_id key = record {
  aggregate_version = 0;
  expires_at = clock + 900_000;
  id = id;
  status = created;
  ticket_id = key;
  user_id = user_id;
}

-- The reply is the answer for the tickets that the database has, and for orders that block them.
abbrev pub Answered :
    (String → Bool)
    → (String → Option String)
    → (ℕ → String)
    → ℕ
    → ℕ
    → String
    → String
    → String
    → Database
    → Result Reply OrderCreationResult
    → Type 0
Answered is_uuid cast iso clock now id ticket_id user_id db reply =
    (ticket : String → Option Ticket) × (blocking : String → Option Order) × ((key : String)
      → Finds db.tickets key (ticket key))
    × ((key : String) → Blocking now key db.orders (blocking key))
    × (reply
        ≡ reservation_answer is_uuid cast iso (order_of clock id user_id) ticket blocking ticket_id
            user_id)

-- What holds of every order holds of the one that stands in the way.
abbrev pub Holds : (Order → Type 0) → Option Order → Type 0
Holds P none = Unit
Holds P (some o) = P o

better-Holds :
    (P : Order → Type 0) (o : Order) (found : Option Order)
    → P o
    → Holds P found
    → P (better o found)
better-Holds P o none h hs = h
better-Holds P o (some p) h hs = elim (Bool-cases (precedes o p)) [
  | inl first ↦ rw first h
  | inr second ↦ rw second hs
]

pub find_blocking_order-Holds :
    (P : Order → Type 0) (now : ℕ) (ticket_id : String) (os : List Order)
    → All P os
    → Holds P (find_blocking_order now ticket_id os)
unfolding find_blocking_order
find_blocking_order-Holds P now ticket_id [] h = tt
find_blocking_order-Holds P now ticket_id (o ∷ os) (h, hs) =
    let below = find_blocking_order-Holds P now ticket_id os hs in
    elim (Bool-cases (blocks now ticket_id o)) [
      | inl stands ↦ rw stands (better-Holds P o (find_blocking_order now ticket_id os) h below)
      | inr free ↦ rw free below
    ]
