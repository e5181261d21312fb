-- ===== src/Gateway/Payments.antt =====
-- The payments route: apps/api-gateway/src/payments/payments.service.ts and payments.controller.ts.
use polyglot_ticketing_v.Base.{ℕ, String, Bool, some, Result, ok, ◌>>=◌, if◌then◌else◌}
use polyglot_ticketing_v.Value.{Value}
use polyglot_ticketing_v.Value.Json.{Json}
use polyglot_ticketing_v.Platform.Metadata.{MetadataApi}
use polyglot_ticketing_v.Gateway.Errors.{Thrown}
use polyglot_ticketing_v.Gateway.Identity.Headers.{RequestHeaders}
use polyglot_ticketing_v.Gateway.Identity.AuthService.{IdentityGrpcService, guarded, invalid_item}
use polyglot_ticketing_v.Gateway.Identity.Session.{with_session}

pub record CreatePaymentRequest : Type 0 where
  pub order_id : String
  pub user_id : String

pub record PaymentGrpcResponse : Type 0 where
  pub id : String
  pub order_id : String

pub record CreatePaymentGrpcResponse : Type 0 where
  pub created : Bool
  pub payment : PaymentGrpcResponse

pub record PaymentResponse : Type 0 where
  pub id : String
  pub order_id : String

pub record PaymentCreationResult : Type 0 where
  pub created : Bool
  pub payment : PaymentResponse

pub record PaymentsGrpcService : Type 0 where
  pub create_payment : CreatePaymentRequest → Result Value CreatePaymentGrpcResponse

unfoldable pub to_payment_response : PaymentGrpcResponse → PaymentResponse
to_payment_response response = record { id = response.id; order_id = response.order_id }

module _ (grpc : MetadataApi) (json : Json) (unauthorized : Value)
    (identity : IdentityGrpcService grpc) (payments : PaymentsGrpcService) where
  unfoldable pub create_payment : String → String → Result Thrown PaymentCreationResult
  unfolding to_payment_response
  create_payment order_id user_id =
      guarded grpc json identity (some (invalid_item "Order ID is invalid.")) do
        response ← payments.create_payment (record { order_id = order_id; user_id = user_id })
        ok (record { created = response.created; payment = to_payment_response response.payment })

  -- `PaymentsController.createPayment`: the HTTP status, and the body.
  unfoldable pub post_payment : RequestHeaders → String → Result Thrown (ℕ × PaymentResponse)
  post_payment headers order_id = with_session grpc json unauthorized identity headers λ user. do
    result ← create_payment order_id user.id
    ok (if result.created then 201 else 200, result.payment)
