-- ===== src/Gateway/Protected.antt =====
-- The routes behind `SessionAuthGuard`, together: apps/api-gateway/src/orders, payments, tickets.
use polyglot_ticketing_v.Base.{String, ◌≡◌, ok, err}
use polyglot_ticketing_v.Value.{Value}
use polyglot_ticketing_v.Value.Json.{Json}
use polyglot_ticketing_v.Platform.Metadata.{MetadataApi}
use polyglot_ticketing_v.Platform.Dates.{DateApi}
use polyglot_ticketing_v.Gateway.Errors.{Thrown}
use polyglot_ticketing_v.Gateway.Identity.Headers.{RequestHeaders}
use polyglot_ticketing_v.Gateway.Identity.AuthService.{
  AuthenticatedUser, IdentityGrpcService, current_user,
}
use polyglot_ticketing_v.Gateway.Identity.Session.Laws.{with_session-err, with_session-agree}
use polyglot_ticketing_v.Gateway.Orders.{
  OrdersGrpcService, create_order, cancel_order, list_orders, get_order, post_order, delete_order,
  get_orders, get_order_by_id,
}
use polyglot_ticketing_v.Gateway.Payments.{PaymentsGrpcService, post_payment}
use polyglot_ticketing_v.Gateway.Tickets.{TicketsGrpcService, TicketBody, put_ticket, post_ticket}

-- Where Identity gives no user for the request's headers, every route behind the guard fails with
-- the error of that call, whatever the services behind it would answer.
pub protected_routes_reject :
    (grpc : MetadataApi) (json : Json) (dates : DateApi) (unauthorized : Value)
    (identity : IdentityGrpcService grpc) (headers : RequestHeaders) (orders : OrdersGrpcService)
    (payments : PaymentsGrpcService) (tickets : TicketsGrpcService) (id : String)
    (body : TicketBody) (e : Thrown)
    → current_user grpc json identity headers ≡ err e
    → (post_order grpc json dates unauthorized identity orders headers id ≡ err e)
      × (delete_order grpc json dates unauthorized identity orders headers id ≡ err e)
      × (get_orders grpc json dates unauthorized identity orders headers ≡ err e)
      × (get_order_by_id grpc json dates unauthorized identity orders headers id ≡ err e)
      × (post_payment grpc json unauthorized identity payments headers id ≡ err e)
      × (post_ticket grpc json unauthorized identity tickets headers body ≡ err e)
      × (put_ticket grpc json unauthorized identity tickets headers id body ≡ err e)
unfolding post_order delete_order get_orders get_order_by_id post_payment post_ticket put_ticket
protected_routes_reject grpc json dates unauthorized identity headers orders payments tickets id
      body e failed =
    (
      with_session-err grpc json unauthorized identity headers _ e failed,
      with_session-err grpc json unauthorized identity headers _ e failed,
      with_session-err grpc json unauthorized identity headers _ e failed,
      with_session-err grpc json unauthorized identity headers _ e failed,
      with_session-err grpc json unauthorized identity headers _ e failed,
      with_session-err grpc json unauthorized identity headers _ e failed,
      with_session-err grpc json unauthorized identity headers _ e failed,
    )

-- Two orders services that answer alike whatever is asked in the name of one user.
pub record AgreeFor (user_id : String) (o p : OrdersGrpcService) : Type 0 where
  pub cancel :
      (id : String)
      → o.cancel_order (record { order_id = id; user_id = user_id })
        ≡ p.cancel_order (record { order_id = id; user_id = user_id })
  pub create :
      (id : String)
      → o.create_order (record { ticket_id = id; user_id = user_id })
        ≡ p.create_order (record { ticket_id = id; user_id = user_id })
  pub get :
      (id : String)
      → o.get_order (record { order_id = id; user_id = user_id })
        ≡ p.get_order (record { order_id = id; user_id = user_id })
  pub list : o.list_orders user_id ≡ p.list_orders user_id

-- The orders routes ask the orders service in the name of the session's user alone: their results
-- are the same for two services that answer that user alike, whatever they answer other users.
pub orders_routes_act_for_user :
    (grpc : MetadataApi) (json : Json) (dates : DateApi) (unauthorized : Value)
    (identity : IdentityGrpcService grpc) (headers : RequestHeaders) (user : AuthenticatedUser)
    (o p : OrdersGrpcService) (id : String)
    → current_user grpc json identity headers ≡ ok user
    → AgreeFor user.id o p
    → (post_order grpc json dates unauthorized identity o headers id
        ≡ post_order grpc json dates unauthorized identity p headers id)
      × (delete_order grpc json dates unauthorized identity o headers id
          ≡ delete_order grpc json dates unauthorized identity p headers id)
      × (get_orders grpc json dates unauthorized identity o headers
          ≡ get_orders grpc json dates unauthorized identity p headers)
      × (get_order_by_id grpc json dates unauthorized identity o headers id
          ≡ get_order_by_id grpc json dates unauthorized identity p headers id)
unfolding post_order delete_order get_orders get_order_by_id create_order cancel_order list_orders
    get_order
orders_routes_act_for_user grpc json dates unauthorized identity headers user o p id found agree = (
  with_session-agree grpc json unauthorized identity headers _ _ user found (rw (agree.create id)),
  with_session-agree grpc json unauthorized identity headers _ _ user found (rw (agree.cancel id)),
  with_session-agree grpc json unauthorized identity headers _ _ user found (rw agree.list),
  with_session-agree grpc json unauthorized identity headers _ _ user found (rw (agree.get id)),
)
