-- ===== src/Tests/Routes.antt =====
-- Examples of the gateway's routes.
use polyglot_ticketing_v.Base.{true, ◌≡◌, ◌↔◌, refl, some, List, [], ◌∷◌, ok, err}
use polyglot_ticketing_v.Value.{str}
use polyglot_ticketing_v.Contracts.OrderStatus
use polyglot_ticketing_v.Gateway.Errors.{Thrown, service_unavailable, throw_gateway_grpc_error}
use polyglot_ticketing_v.Gateway.Identity.Metadata.{create_session_request_metadata}
use polyglot_ticketing_v.Gateway.Identity.AuthService.{AuthenticatedUser, current_user}
use polyglot_ticketing_v.Gateway.Orders.{
  OrderGrpcResponse, list_orders, post_order, delete_order, get_orders, get_order_by_id,
}
use polyglot_ticketing_v.Gateway.Orders.Replies.{Shown, list_orders-Shown_iff}
use polyglot_ticketing_v.Gateway.Payments.{post_payment}
use polyglot_ticketing_v.Gateway.Tickets.{TicketBody, post_ticket, put_ticket}
use polyglot_ticketing_v.Gateway.Protected.{AgreeFor, protected_routes_reject}
use polyglot_ticketing_v.Tests.Samples.{metadata, dates}
use polyglot_ticketing_v.Tests.Samples.Services.{
  json_of, identity, without_cookie, order, shown, orders_with, payments, tickets,
}

abbrev two_orders : List OrderGrpcResponse
two_orders = order "o1" OrderStatus.created ∷ order "o2" OrderStatus.unspecified ∷ []

list_orders-Shown_iff_example :
    (list_orders metadata
        (json_of (str ""))
        dates
        identity
        (orders_with (str "") (order "o1" OrderStatus.created ∷ []))
        "u1"
      ≡ ok (shown "o1" ∷ []))
    ↔ Shown dates (order "o1" OrderStatus.created ∷ []) (shown "o1" ∷ [])
list_orders-Shown_iff_example =
    list_orders-Shown_iff metadata (json_of (str "")) dates identity
      (orders_with (str "") (order "o1" OrderStatus.created ∷ [])) "u1"
      (some (order "o1" OrderStatus.created ∷ [])) (shown "o1" ∷ []) refl

abbrev refused : Thrown
refused = service_unavailable

abbrev body : TicketBody
body = record { title = "Concert"; price = 20 }

protected_routes_reject_example :
    (post_order metadata
        (json_of (str ""))
        dates
        (str "")
        identity
        (orders_with (str "") [])
        without_cookie
        "t1"
      ≡ err refused)
    × (delete_order metadata
          (json_of (str ""))
          dates
          (str "")
          identity
          (orders_with (str "") [])
          without_cookie
          "t1"
        ≡ err refused)
    × (get_orders metadata
          (json_of (str ""))
          dates
          (str "")
          identity
          (orders_with (str "") [])
          without_cookie
        ≡ err refused)
    × (get_order_by_id metadata
          (json_of (str ""))
          dates
          (str "")
          identity
          (orders_with (str "") [])
          without_cookie
          "t1"
        ≡ err refused)
    × (post_payment metadata (json_of (str "")) (str "") identity payments without_cookie "t1"
        ≡ err refused)
    × (post_ticket metadata (json_of (str "")) (str "") identity tickets without_cookie body
        ≡ err refused)
    × (put_ticket metadata (json_of (str "")) (str "") identity tickets without_cookie "t1" body
        ≡ err refused)
unfolding current_user throw_gateway_grpc_error create_session_request_metadata
protected_routes_reject_example =
    protected_routes_reject metadata (json_of (str "")) dates (str "") identity without_cookie
      (orders_with (str "") []) payments tickets "t1" body refused refl

abbrev ada : AuthenticatedUser
ada = record { id = "u1"; name = "Ada"; email = "ada@example.com"; email_verified = true }

-- Two services that differ only in what they answer other users.
agree : AgreeFor "u1" (orders_with (str "a") two_orders) (orders_with (str "b") two_orders)
agree = record { cancel = λ id. refl; create = λ id. refl; get = λ id. refl; list = refl }
