-- ===== src/Tests/Reservations.antt =====
-- A reservation of a ticket that somebody else has reserved, through the gateway and the orders
-- service.
use polyglot_ticketing_v.Base.{
  ℕ, String, refl, ap, Bool, true, Option, some, [], ◌∷◌, map_err, err_injective, arith,
}
use polyglot_ticketing_v.Value.Json.{Json}
use polyglot_ticketing_v.Gateway.Errors.Filter.{catch}
use polyglot_ticketing_v.Gateway.Orders
use polyglot_ticketing_v.Gateway.Orders.{OrdersGrpcService}
use polyglot_ticketing_v.Orders.Repository.{
  reserve_ticket, find_blocking_order, upsert_ticket_from_event, decide_ticket_event_version,
}
use polyglot_ticketing_v.Orders.Service
use polyglot_ticketing_v.Orders.Service.{
  code_string, validate_order_user, validate_ticket_reservation,
}
use polyglot_ticketing_v.Orders.Server
use polyglot_ticketing_v.Orders.Server.{StatusError, payload}
use polyglot_ticketing_v.Boundary.Reservations.{to_wire, Answered, item}
use polyglot_ticketing_v.Boundary.Reservations.Answers.{reservation_answers}
use polyglot_ticketing_v.Tests.Samples.{metadata, dates}
use polyglot_ticketing_v.Tests.Samples.Services.{json_of, identity, orders_with}
use polyglot_ticketing_v.Tests.Orders.{reserved_by_ann}

abbrev is_uuid : String → Bool
is_uuid text = true

abbrev refusal : StatusError
refusal = record { code = 6; errors = item "ALREADY_EXISTS" "Ticket is currently reserved." ∷ [] }

abbrev json : Json
json = json_of (payload refusal)

abbrev orders : OrdersGrpcService
orders = record (orders_with (to_wire json refusal) []) {
  create_order = λ request.
      map_err (to_wire json)
        (Server.create_order is_uuid (λ text. some text) 1 1 "order-2" request reserved_by_ann).0;
}

abbrev iso : ℕ → String
iso t = "1970-01-01T00:00:00.000Z"

abbrev cast : String → Option String
cast text = some text

reservation_answers_example :
    Answered is_uuid cast iso 1 1 "order-2" "ticket" "bob" reserved_by_ann
      (map_err catch (Orders.create_order metadata json dates identity orders "ticket" "bob"))
unfolding reserve_ticket find_blocking_order upsert_ticket_from_event decide_ticket_event_version
    Server.create_order Server.create_order_failure Service.reserve code_string
    validate_ticket_reservation validate_order_user
reservation_answers_example =
    reservation_answers metadata json dates identity orders is_uuid cast 1 1 "order-2" "ticket"
      "bob" reserved_by_ann iso (λ t h. refl) refl (omega arith) (omega arith, tt) refl
      λ e failed. ap (λ d. some (payload d)) (err_injective failed)
