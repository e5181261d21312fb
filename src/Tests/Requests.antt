-- ===== src/Tests/Requests.antt =====
-- Bodies of requests, accepted and rejected.
use polyglot_ticketing_v.Base.{
  pos, negsuc, true, none, List, [], ◌∷◌, ok, err, ◌==◌, str_eq, if◌then◌else◌, ◌≡◌, ◌↔◌, refl, All,
  map, arith,
}
use polyglot_ticketing_v.Value.{Value, str}
use polyglot_ticketing_v.Platform.Numbers.{whole}
use polyglot_ticketing_v.Platform.ClassValidator.{Body, text, number, null}
use polyglot_ticketing_v.Gateway.Errors.{ErrorItem, Thrown, error_response, item_value}
use polyglot_ticketing_v.Gateway.Errors.Filter.{catch}
use polyglot_ticketing_v.Gateway.Requests.{receive}
use polyglot_ticketing_v.Gateway.Requests.Dtos.{create_ticket_dto, read_ticket}
use polyglot_ticketing_v.Gateway.Requests.Acceptance.{receive-IsTicket_iff, IsTicket}
use polyglot_ticketing_v.Gateway.Requests.Rejection.{receive-rejects, Reports}
use polyglot_ticketing_v.Gateway.Requests.Routes.{
  post_order_body, post_payment_body, post_ticket_body, put_ticket_body,
}
use polyglot_ticketing_v.Gateway.Requests.Asking.{
  routes_ask_checked, AgreeOnOrders, AgreeOnPayments, AgreeOnTickets,
}
use polyglot_ticketing_v.Gateway.Tickets.{TicketBody, TicketsGrpcService}
use polyglot_ticketing_v.Gateway.Payments.{PaymentsGrpcService}
use polyglot_ticketing_v.Gateway.Identity.AuthService.{AuthenticatedUser, current_user}
use polyglot_ticketing_v.Tests.Samples.{metadata, dates}
use polyglot_ticketing_v.Tests.Samples.Services.{
  json_of, identity, with_cookie, orders_with, failure,
}
use polyglot_ticketing_v.Tests.Samples.Validator.{one_uuid}
use polyglot_ticketing_v.Tests.Samples.Validator.Reports.{validator}

abbrev concert : Body
concert = ("title", text "Concert") ∷ ("price", number (whole (pos 20))) ∷ []

abbrev concert_ticket : TicketBody
concert_ticket = record { title = "Concert"; price = 20 }

abbrev odd : Body
odd = ("title", text "") ∷ ("price", number (whole (negsuc 4))) ∷ ("id", null) ∷ []

receive-IsTicket_iff_example :
    (receive validator create_ticket_dto read_ticket concert ≡ ok concert_ticket)
    ↔ IsTicket concert concert_ticket
receive-IsTicket_iff_example = receive-IsTicket_iff validator concert concert_ticket

-- The concert is handed on.
concert_received : receive validator create_ticket_dto read_ticket concert ≡ ok concert_ticket
unfolding receive
concert_received = refl

receive-rejects_example :
    (thrown : Thrown) × (item : ErrorItem) × (items : List ErrorItem) × (receive validator
        create_ticket_dto read_ticket odd
      ≡ err thrown)
    × (catch thrown
        ≡ record { status = 400; body = error_response (map item_value (item ∷ items)) })
    × All (Reports validator create_ticket_dto odd) (item ∷ items)
receive-rejects_example = receive-rejects validator create_ticket_dto read_ticket odd refl

abbrev ordered : Body
ordered = ("ticketId", text one_uuid) ∷ []

abbrev ada_user : AuthenticatedUser
ada_user = record { id = "u1"; name = "Ada"; email = "ada@example.com"; email_verified = true }

-- Services with an answer of their own to what the checks do not let through.
abbrev payments_with : Value → PaymentsGrpcService
payments_with answer = record {
  create_payment = λ r. if str_eq r.order_id one_uuid then err (failure 5) else err answer;
}

abbrev tickets_with : Value → TicketsGrpcService
tickets_with answer = record {
  create_ticket = λ r. if r.price == 0 then err answer else err (failure 3);
  update_ticket = λ r. if r.price == 0 then err answer else err (failure 5);
  get_ticket = λ id. err (failure 5);
  list_tickets = ok none;
}

orders_agree : AgreeOnOrders validator "u1" (orders_with (str "a") []) (orders_with (str "b") [])
orders_agree = record { create = λ id valid. refl }

payments_agree : AgreeOnPayments validator "u1" (payments_with (str "a")) (payments_with (str "b"))
payments_agree = record { create = λ id valid. rw valid }

tickets_agree : AgreeOnTickets "u1" (tickets_with (str "a")) (tickets_with (str "b"))
tickets_agree = record {
  create = λ title price titled low high. ground arith;
  update = λ id title price titled low high. ground arith;
}

routes_ask_checked_example :
    (post_order_body validator metadata
        (json_of (str ""))
        (str "")
        identity
        with_cookie
        dates
        (orders_with (str "a") [])
        ordered
      ≡ post_order_body validator metadata
          (json_of (str ""))
          (str "")
          identity
          with_cookie
          dates
          (orders_with (str "b") [])
          ordered)
    × (post_payment_body validator metadata
          (json_of (str ""))
          (str "")
          identity
          with_cookie
          (payments_with (str "a"))
          ordered
        ≡ post_payment_body validator metadata
            (json_of (str ""))
            (str "")
            identity
            with_cookie
            (payments_with (str "b"))
            ordered)
    × (post_ticket_body validator metadata
          (json_of (str ""))
          (str "")
          identity
          with_cookie
          (tickets_with (str "a"))
          ordered
        ≡ post_ticket_body validator metadata
            (json_of (str ""))
            (str "")
            identity
            with_cookie
            (tickets_with (str "b"))
            ordered)
    × (put_ticket_body validator metadata
          (json_of (str ""))
          (str "")
          identity
          with_cookie
          (tickets_with (str "a"))
          "t1"
          ordered
        ≡ put_ticket_body validator metadata
            (json_of (str ""))
            (str "")
            identity
            with_cookie
            (tickets_with (str "b"))
            "t1"
            ordered)
unfolding current_user
routes_ask_checked_example =
    routes_ask_checked validator metadata (json_of (str "")) (str "") identity with_cookie ada_user
      dates (orders_with (str "a") []) (orders_with (str "b") []) (payments_with (str "a"))
      (payments_with (str "b")) (tickets_with (str "a")) (tickets_with (str "b")) "t1" ordered refl
      orders_agree payments_agree tickets_agree
