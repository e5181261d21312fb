-- ===== src/Gateway/Requests/Routes.antt =====
-- The routes with a body, from the body as it arrives: the guard where the route has it, then the
-- pipe, then the handler. apps/api-gateway/src/identity/auth.controller.ts,
-- orders/orders.controller.ts, payments/payments.controller.ts and tickets/tickets.controller.ts.
-- The query of verify-email is left out: its token need not be a text.
use polyglot_ticketing_v.Base.{ℕ, String, Bool, none, Option, Result, ok, err, ◌>>=◌, if◌then◌else◌}
use polyglot_ticketing_v.Value.{Value}
use polyglot_ticketing_v.Value.Json.{Json}
use polyglot_ticketing_v.Platform.Metadata.{MetadataApi}
use polyglot_ticketing_v.Platform.Dates.{DateApi}
use polyglot_ticketing_v.Platform.ClassValidator.{Body, Rules, ClassValidator}
use polyglot_ticketing_v.Gateway.Errors.{Thrown}
use polyglot_ticketing_v.Gateway.Identity.Headers.{RequestHeaders}
use polyglot_ticketing_v.Gateway.Identity.AuthService.{AuthenticatedUser, IdentityGrpcService}
use polyglot_ticketing_v.Gateway.Identity.AuthController.{
  Cookie, SignInBody, post_sign_in, post_sign_up,
}
use polyglot_ticketing_v.Gateway.Identity.Session.{with_session}
use polyglot_ticketing_v.Gateway.Orders.{OrdersGrpcService, OrderResponse, create_order}
use polyglot_ticketing_v.Gateway.Payments.{PaymentsGrpcService, PaymentResponse, create_payment}
use polyglot_ticketing_v.Gateway.Tickets.{TicketsGrpcService, Ticket, create_ticket, update_ticket}
use polyglot_ticketing_v.Gateway.Requests.{receive}
use polyglot_ticketing_v.Gateway.Requests.Dtos.{
  sign_in_dto, sign_up_dto, create_order_dto, create_payment_dto, create_ticket_dto,
  update_ticket_dto, read_sign_in, read_sign_up, read_ticket_id, read_order_id, read_ticket,
}
use polyglot_ticketing_v.Identity.Service.{SignInRequest, SignUpResponse}

module _ (validator : ClassValidator) (grpc : MetadataApi) (json : Json) (unauthorized : Value)
    (identity : IdentityGrpcService grpc) (headers : RequestHeaders) where
  -- A handler behind the guard that takes a body.
  unfoldable pub with_body {ℓ κ} :
      {A : Type ℓ} {B : Type κ}
      → Rules
      → (Body → A)
      → (A → AuthenticatedUser → Result Thrown B)
      → Body
      → Result Thrown B
  unfolding receive
  with_body rules read handler body =
      with_session grpc json unauthorized identity headers
        λ user. receive validator rules read body >>= λ dto. handler dto user

  unfoldable pub post_order_body :
      DateApi → OrdersGrpcService → Body → Result Thrown (ℕ × OrderResponse)
  unfolding with_body
  post_order_body dates orders = with_body create_order_dto read_ticket_id λ ticket_id user. do
    result ← create_order grpc json dates identity orders ticket_id user.id
    ok (if result.created then 201 else 200, result.order)

  unfoldable pub post_payment_body :
      PaymentsGrpcService → Body → Result Thrown (ℕ × PaymentResponse)
  unfolding with_body
  post_payment_body payments = with_body create_payment_dto read_order_id λ order_id user. do
    result ← create_payment grpc json unauthorized identity payments order_id user.id
    ok (if result.created then 201 else 200, result.payment)

  unfoldable pub post_ticket_body : TicketsGrpcService → Body → Result Thrown Ticket
  unfolding with_body
  post_ticket_body tickets =
      with_body create_ticket_dto read_ticket
        λ dto user. create_ticket grpc json unauthorized identity tickets dto user.id

  unfoldable pub put_ticket_body : TicketsGrpcService → String → Body → Result Thrown Ticket
  unfolding with_body
  put_ticket_body tickets id =
      with_body update_ticket_dto read_ticket
        λ dto user. update_ticket grpc json unauthorized identity tickets id dto user.id

module _ (validator : ClassValidator) (grpc : MetadataApi) (json : Json)
    (identity : IdentityGrpcService grpc) where
  abbrev sign_in_with :
      DateApi
      → Bool
      → RequestHeaders
      → Result Thrown SignInRequest
      → Option Cookie × Result Thrown SignInBody
  sign_in_with dates production headers (err e) = (none, err e)
  sign_in_with dates production headers (ok dto) =
      post_sign_in grpc json dates identity production dto headers

  unfoldable pub post_sign_in_body :
      DateApi → Bool → RequestHeaders → Body → Option Cookie × Result Thrown SignInBody
  unfolding receive
  post_sign_in_body dates production headers body =
      sign_in_with dates production headers (receive validator sign_in_dto read_sign_in body)

  unfoldable pub post_sign_up_body : DateApi → Bool → Body → Result Thrown SignUpResponse
  unfolding receive
  post_sign_up_body dates production body = do
    dto ← receive validator sign_up_dto read_sign_up body
    post_sign_up grpc json dates identity production dto
