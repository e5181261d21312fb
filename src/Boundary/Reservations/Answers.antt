-- ===== src/Boundary/Reservations/Answers.antt =====
-- The replies to a reservation.
use polyglot_ticketing_v.Base.{
  ℕ, pos, ◌+◌, ◌≤◌, String, ◌≡◌, refl, ap, ◌∙◌, Bool, true, false, ◌&&◌, not, Bool-cases, inl, inr,
  Option, none, some, List, [], ◌∷◌, All, Result, ok, err, map_err, str_eq,
}
use polyglot_ticketing_v.Value.Json.{Json, RoundTrips}
use polyglot_ticketing_v.Contracts.ErrorItem.{ErrorItem}
use polyglot_ticketing_v.Platform.Metadata.{MetadataApi}
use polyglot_ticketing_v.Platform.Dates.{DateApi, last_time}
use polyglot_ticketing_v.Gateway.Errors.{http_status_from_grpc_code}
use polyglot_ticketing_v.Gateway.Errors.Filter.{catch}
use polyglot_ticketing_v.Gateway.Identity.AuthService.{IdentityGrpcService}
use polyglot_ticketing_v.Gateway.Orders
use polyglot_ticketing_v.Gateway.Orders.{
  RestStatus, OrderResponse, OrderCreationResult, OrdersGrpcService, CreateOrderGrpcResponse,
}
use polyglot_ticketing_v.Orders.{
  Ticket, Order, TicketReservationInput, ReservationResult, OrderError, Database, expiration_window,
  is_complete,
}
use polyglot_ticketing_v.Orders.Repository.{
  find_ticket, find_blocking_order, has_order, reserve_ticket, after_find, after_ticket,
}
use polyglot_ticketing_v.Orders.Service
use polyglot_ticketing_v.Orders.Service.{
  is_blank, invalid_field, code_string, validate_ticket_reservation, validate_order_user,
}
use polyglot_ticketing_v.Orders.Server
use polyglot_ticketing_v.Orders.Server.{StatusError, item_value, payload}
use polyglot_ticketing_v.Boundary.Replies.{client_reply}
use polyglot_ticketing_v.Boundary.Reservations.{
  to_wire, shown, owner_answer, order_answer, ticket_answer, key_answer, order_of,
  reservation_answer, Answered, item, Holds, find_blocking_order-Holds, is_white,
}
use polyglot_ticketing_v.Boundary.Reservations.Client.{
  gateway_reply, gateway_reply-err, gateway_reply-ok,
}
use polyglot_ticketing_v.Base.Text.{every}
use polyglot_ticketing_v.Orders.{Status, created, canceled, awaiting_payment, complete}
use polyglot_ticketing_v.Orders.Repository.Blocking.{
  find_ticket-Finds, find_blocking_order-Blocking,
}

module _ (json : Json) (dates : DateApi) (iso : ℕ → String)
    (texts : (t : ℕ) → t ≤ last_time → dates.to_iso_string (pos t) ≡ some (iso t)) where
  -- What the server answers to a transaction.
  abbrev served :
      Result OrderError ReservationResult × Database → Result StatusError CreateOrderGrpcResponse
  served t =
      (Server.answered Server.create_order_failure Server.to_create_order_response
        (Service.done t)).0

  abbrev Tripping : Result StatusError CreateOrderGrpcResponse → Type 0
  Tripping r = (e : StatusError) → r ≡ err e → RoundTrips json (payload e)

  module _ (clock now : ℕ) (id key user_id : String) (db : Database)
      (ahead : clock + 900_000 ≤ last_time) (held : All (λ o. o.expires_at ≤ last_time) db.orders)
      (free : has_order id db.orders ≡ false) where
    abbrev input : TicketReservationInput
    input = record { expires_at = clock + expiration_window; ticket_id = key; user_id = user_id }

    reserved-answer :
        (ticket : Ticket) (o : Order)
        → (str_eq o.user_id user_id && not (is_complete o.status)) ≡ false
        → Tripping (served (after_find id input ticket db (some o)))
        → gateway_reply json dates (served (after_find id input ticket db (some o)))
          ≡ err (client_reply 409 (item "ALREADY_EXISTS" "Ticket is currently reserved." ∷ []))
    unfolding Server.create_order_failure http_status_from_grpc_code code_string
    reserved-answer ticket o other trip = rw other (
        gateway_reply-err json dates 6 (item "ALREADY_EXISTS" "Ticket is currently reserved.")
          (trip _ (rw other)))

    owned-answer :
        (ticket : Ticket) (o : Order)
        → (str_eq o.user_id user_id && not (is_complete o.status)) ≡ true
        → o.expires_at ≤ last_time
        → gateway_reply json dates (served (after_find id input ticket db (some o)))
          ≡ ok (record { created = false; order = shown iso o })
    owned-answer ticket o own h =
        rw own (gateway_reply-ok json dates iso texts (record { created = false; order = o }) h)

    -- By the user and the status of the order that stands in the way.
    existing-answer :
        (ticket : Ticket) (o : Order) (own : Bool) (status : Status)
        → str_eq o.user_id user_id ≡ own
        → o.status ≡ status
        → o.expires_at ≤ last_time
        → Tripping (served (after_find id input ticket db (some o)))
        → gateway_reply json dates (served (after_find id input ticket db (some o)))
          ≡ owner_answer iso o own status
    existing-answer ticket o false status mine at_status h trip =
        reserved-answer ticket o (rw mine refl) trip
    existing-answer ticket o true complete mine at_status h trip =
        reserved-answer ticket o (rw (mine, at_status) refl) trip
    existing-answer ticket o true created mine at_status h trip =
        owned-answer ticket o (rw (mine, at_status) refl) h
    existing-answer ticket o true canceled mine at_status h trip =
        owned-answer ticket o (rw (mine, at_status) refl) h
    existing-answer ticket o true awaiting_payment mine at_status h trip =
        owned-answer ticket o (rw (mine, at_status) refl) h

    after_find-answer :
        (ticket : Ticket) (found : Option Order)
        → Holds (λ o. o.expires_at ≤ last_time) found
        → Tripping (served (after_find id input ticket db found))
        → gateway_reply json dates (served (after_find id input ticket db found))
          ≡ order_answer iso (order_of clock id user_id key) found
    after_find-answer ticket none h trip = rw free (
        gateway_reply-ok json dates iso texts
          (record { created = true; order = order_of clock id user_id key }) ahead)
    after_find-answer ticket (some o) h trip =
        existing-answer ticket o (str_eq o.user_id user_id) o.status refl refl h trip

    after_ticket-answer :
        (found : Option Ticket)
        → Tripping (served (after_ticket now id input db found))
        → gateway_reply json dates (served (after_ticket now id input db found))
          ≡ ticket_answer iso
              (order_of clock id user_id key)
              (λ k. find_blocking_order now k db.orders)
              found
    unfolding Server.create_order_failure http_status_from_grpc_code code_string
    after_ticket-answer none trip =
        gateway_reply-err json dates 5 (item "NOT_FOUND" "Ticket not found.") (trip _ refl)
    after_ticket-answer (some ticket) trip =
        after_find-answer ticket (find_blocking_order now ticket.id db.orders)
          (find_blocking_order-Holds (λ o. o.expires_at ≤ last_time) now ticket.id db.orders held)
          trip

  module _ (is_uuid : String → Bool) (cast : String → Option String) (clock now : ℕ)
      (id ticket_id user_id : String) (db : Database) (ahead : clock + 900_000 ≤ last_time)
      (held : All (λ o. o.expires_at ≤ last_time) db.orders)
      (free : has_order id db.orders ≡ false) where
    abbrev call : Result StatusError CreateOrderGrpcResponse
    call =
        (Server.create_order is_uuid cast clock now id
          (record { ticket_id = ticket_id; user_id = user_id }) db).0

    abbrev statement : String → Result OrderError ReservationResult × Database
    statement key = reserve_ticket now id (input clock now id key user_id db ahead held free) db

    abbrev with_errors : List ErrorItem → Result StatusError CreateOrderGrpcResponse
    with_errors errors =
        (Server.answered Server.create_order_failure Server.to_create_order_response (
          Service.checked errors db
            (Service.done (Service.with_key (cast ticket_id) db statement)))).0

    abbrev with_cast : Option String → Result StatusError CreateOrderGrpcResponse
    with_cast key = served (Service.with_key key db statement)

    call-checked : call ≡ with_errors (validate_ticket_reservation is_uuid ticket_id user_id)
    unfolding Server.create_order Service.reserve
    call-checked = refl

    call-invalid :
        (e : ErrorItem)
        → validate_ticket_reservation is_uuid ticket_id user_id ≡ e ∷ []
        → call ≡ err (record { code = 3; errors = e ∷ [] })
    unfolding Server.create_order_failure
    call-invalid e found = call-checked ∙ ap with_errors found

    -- A request that the checks refuse.
    refused-answer :
        (e : ErrorItem)
        → validate_ticket_reservation is_uuid ticket_id user_id ≡ e ∷ []
        → Tripping call
        → gateway_reply json dates call ≡ err (client_reply 400 (e ∷ []))
    unfolding http_status_from_grpc_code
    refused-answer e found trip =
        ap (gateway_reply json dates) (call-invalid e found)
        ∙ gateway_reply-err json dates 3 e (trip _ (call-invalid e found))

    -- One that they let through, by what the database reads its id as.
    cast-answer :
        (key : Option String)
        → Tripping (with_cast key)
        → gateway_reply json dates (with_cast key)
          ≡ key_answer iso
              (order_of clock id user_id)
              (λ k. find_ticket k db.tickets)
              (λ k. find_blocking_order now k db.orders)
              key
    unfolding Server.create_order_failure http_status_from_grpc_code code_string reserve_ticket
    cast-answer none trip =
        gateway_reply-err json dates 13 (item "INTERNAL_ERROR" "Unable to create order.")
          (trip _ refl)
    cast-answer (some key) trip =
        after_ticket-answer clock now id key user_id db ahead held free (find_ticket key db.tickets)
          trip

    call-answer :
        Tripping call
        → gateway_reply json dates call
          ≡ reservation_answer is_uuid cast iso
              (order_of clock id user_id)
              (λ k. find_ticket k db.tickets)
              (λ k. find_blocking_order now k db.orders)
              ticket_id
              user_id
    unfolding code_string validate_ticket_reservation validate_order_user
    call-answer trip = elim (Bool-cases (is_uuid ticket_id)) [
      | inr other ↦ rw other (refused-answer _ (rw other) trip)
      | inl uuid ↦ elim (Bool-cases (every is_white user_id)) [
        | inl blank ↦ rw (uuid, blank) (refused-answer _ (rw (uuid, blank)) trip)
        | inr named ↦
            let passed : validate_ticket_reservation is_uuid ticket_id user_id ≡ [] =
              rw (uuid, named) in
            let valid = call-checked ∙ ap with_errors passed in
            rw (uuid, named)
              (ap (gateway_reply json dates) valid
                ∙ cast-answer (cast ticket_id) λ e h. trip e (valid ∙ h))
      ]
    ]

-- The gateway's reply to a reservation, in front of the orders service, by what its database holds.
-- A ticket id that is no UUID and a blank user get status 400, an id that Postgres does not read
-- 500, and a ticket that is not there 404. An order blocks the ticket where it is complete, or
-- pending with an expiry that lies ahead; complete ones come first, then later expiries. Where one
-- does, its own user gets that order again unless it is complete, and everybody else 409; where
-- none does, the user gets a new order that runs out 15 minutes later. The times are in range of a
-- date, the new id is free, and JSON reads back the errors that the service writes.
pub reservation_answers :
    (grpc : MetadataApi) (json : Json) (dates : DateApi) (identity : IdentityGrpcService grpc)
    (orders : OrdersGrpcService) (is_uuid : String → Bool) (cast : String → Option String)
    (clock now : ℕ) (id ticket_id user_id : String) (db : Database) (iso : ℕ → String)
    → ((t : ℕ) → t ≤ last_time → dates.to_iso_string (pos t) ≡ some (iso t))
    → orders.create_order (record { ticket_id = ticket_id; user_id = user_id })
      ≡ map_err
          (to_wire json)
          (Server.create_order is_uuid cast clock now id
            (record { ticket_id = ticket_id; user_id = user_id })
            db).0
    → clock + 900_000 ≤ last_time
    → All (λ o. o.expires_at ≤ last_time) db.orders
    → has_order id db.orders ≡ false
    → ((e : StatusError)
        → (Server.create_order is_uuid cast clock now id
            (record { ticket_id = ticket_id; user_id = user_id })
            db).0
          ≡ err e
        → RoundTrips json (payload e))
    → Answered is_uuid cast iso clock now id ticket_id user_id db
        (map_err catch (Orders.create_order grpc json dates identity orders ticket_id user_id))
unfolding Orders.create_order
reservation_answers grpc json dates identity orders is_uuid cast clock now id ticket_id user_id db
      iso texts asked ahead held free trip =
    (
      λ k. find_ticket k db.tickets,
      λ k. find_blocking_order now k db.orders,
      λ k. find_ticket-Finds db.tickets k,
      λ k. find_blocking_order-Blocking now k db.orders,
      rw asked (
          call-answer json dates iso texts is_uuid cast clock now id ticket_id user_id db ahead held
            free trip),
    )
