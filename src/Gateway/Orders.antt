-- ===== src/Gateway/Orders.antt =====
-- The orders routes: apps/api-gateway/src/orders/orders.service.ts and orders.controller.ts. The
-- orders service behind gRPC is a record of functions that return a response or throw.
pub mod Replies
use polyglot_ticketing_v.Base.{
  ℕ, String, Bool, none, some, Option, List, [], ◌∷◌, default_to, Result, ok, err, ◌>>=◌,
  if◌then◌else◌,
}
use polyglot_ticketing_v.Value.{Value, obj, str, entry, end}
use polyglot_ticketing_v.Value.Json.{Json}
use polyglot_ticketing_v.Contracts.ErrorCode
use polyglot_ticketing_v.Contracts.OrderStatus.{OrderStatus}
use polyglot_ticketing_v.Platform.Metadata.{MetadataApi}
use polyglot_ticketing_v.Platform.Dates.{DateApi, Timestamp}
use polyglot_ticketing_v.Gateway.Errors.{ErrorItem, Thrown, to_public_error_code}
use polyglot_ticketing_v.Gateway.Dates.{to_date, iso_string}
use polyglot_ticketing_v.Gateway.Identity.Headers.{RequestHeaders}
use polyglot_ticketing_v.Gateway.Identity.AuthService.{
  AuthenticatedUser, IdentityGrpcService, guarded, invalid_item,
}
use polyglot_ticketing_v.Gateway.Identity.Session.{with_session}

-- The status as the REST interface spells it.
pub data RestStatus : Type 0 where
  awaiting_payment canceled complete created : RestStatus

pub record OrderGrpcResponse : Type 0 where
  pub expires_at : Timestamp
  pub id : String
  pub status : OrderStatus
  pub ticket_id : String
  pub user_id : String

-- `CreateOrderGrpcResponse` has the fields of an order, and `created`.
pub record CreateOrderGrpcResponse : Type 0 where
  pub created : Bool
  pub order : OrderGrpcResponse

pub record OrderResponse : Type 0 where
  pub expires_at : String
  pub id : String
  pub status : RestStatus
  pub ticket_id : String
  pub user_id : String

pub record OrderCreationResult : Type 0 where
  pub created : Bool
  pub order : OrderResponse

pub record CreateOrderRequest : Type 0 where
  pub ticket_id : String
  pub user_id : String

-- The request of `cancelOrder` and of `getOrder`.
pub record OrderRequest : Type 0 where
  pub order_id : String
  pub user_id : String

pub record OrdersGrpcService : Type 0 where
  pub cancel_order : OrderRequest → Result Value OrderGrpcResponse
  pub create_order : CreateOrderRequest → Result Value CreateOrderGrpcResponse
  pub get_order : OrderRequest → Result Value OrderGrpcResponse
  pub list_orders : String → Result Value (Option (List OrderGrpcResponse))

-- `new Error('Unsupported order status: ...')`; what follows the colon is left out.
abbrev pub unsupported_status : Value
unsupported_status = obj (entry "message" (str "Unsupported order status") end)

unfoldable pub to_order_status : OrderStatus → Result Value RestStatus
to_order_status OrderStatus.created = ok created
to_order_status OrderStatus.canceled = ok canceled
to_order_status OrderStatus.awaiting_payment = ok awaiting_payment
to_order_status OrderStatus.complete = ok complete
to_order_status OrderStatus.unspecified = err unsupported_status
to_order_status (OrderStatus.unrecognized n) = err unsupported_status

module _ (dates : DateApi) where
  unfoldable pub to_order_response : OrderGrpcResponse → Result Value OrderResponse
  unfolding to_date iso_string to_order_status
  to_order_response response = do
    expires_at ← iso_string dates (to_date dates response.expires_at)
    status ← to_order_status response.status
    ok (record {
      expires_at = expires_at;
      id = response.id;
      status = status;
      ticket_id = response.ticket_id;
      user_id = response.user_id;
    })

  -- `orders.map(toOrderResponse)`: the first order that cannot be shown throws.
  unfoldable pub to_order_responses : List OrderGrpcResponse → Result Value (List OrderResponse)
  unfolding to_order_response
  to_order_responses [] = ok []
  to_order_responses (o ∷ os) = do
    first ← to_order_response o
    rest ← to_order_responses os
    ok (first ∷ rest)

  unfoldable pub to_create_order_response :
      CreateOrderGrpcResponse → Result Value OrderCreationResult
  unfolding to_order_response
  to_create_order_response response = do
    order ← to_order_response response.order
    ok (record { created = response.created; order = order })

abbrev pub unable_item : ErrorItem
unable_item = record {
  code = to_public_error_code ErrorCode.internal_error;
  message = "Unable to retrieve orders.";
  field = none;
}

module _ (grpc : MetadataApi) (json : Json) (dates : DateApi) (identity : IdentityGrpcService grpc)
    (orders : OrdersGrpcService) where
  abbrev attempt {ℓ} : {A : Type ℓ} → ErrorItem → Result Value A → Result Thrown A
  attempt item m = guarded grpc json identity (some item) m

  unfoldable pub cancel_order : String → String → Result Thrown OrderResponse
  unfolding to_order_response
  cancel_order id user_id = attempt (invalid_item "Order ID is invalid.") do
    response ← orders.cancel_order (record { order_id = id; user_id = user_id })
    to_order_response dates response

  unfoldable pub create_order : String → String → Result Thrown OrderCreationResult
  unfolding to_create_order_response
  create_order ticket_id user_id = attempt (invalid_item "Order data is invalid.") do
    response ← orders.create_order (record { ticket_id = ticket_id; user_id = user_id })
    to_create_order_response dates response

  unfoldable pub list_orders : String → Result Thrown (List OrderResponse)
  unfolding to_order_responses
  list_orders user_id =
      attempt unable_item
        do response ← orders.list_orders user_id; to_order_responses dates (default_to [] response)

  unfoldable pub get_order : String → String → Result Thrown OrderResponse
  unfolding to_order_response
  get_order id user_id = attempt (invalid_item "Order ID is invalid.") do
    response ← orders.get_order (record { order_id = id; user_id = user_id })
    to_order_response dates response

-- The controller: each route is guarded, and acts for the user of the session.
module _ (grpc : MetadataApi) (json : Json) (dates : DateApi) (unauthorized : Value)
    (identity : IdentityGrpcService grpc) (orders : OrdersGrpcService)
    (headers : RequestHeaders) where
  abbrev as_user {ℓ} : {A : Type ℓ} → (AuthenticatedUser → Result Thrown A) → Result Thrown A
  as_user handler = with_session grpc json unauthorized identity headers handler

  -- The HTTP status, and the body.
  unfoldable pub post_order : String → Result Thrown (ℕ × OrderResponse)
  post_order ticket_id = as_user λ user. do
    result ← create_order grpc json dates identity orders ticket_id user.id
    ok (if result.created then 201 else 200, result.order)

  unfoldable pub delete_order : String → Result Thrown OrderResponse
  delete_order id = as_user λ user. cancel_order grpc json dates identity orders id user.id

  unfoldable pub get_orders : Result Thrown (List OrderResponse)
  get_orders = as_user λ user. list_orders grpc json dates identity orders user.id

  unfoldable pub get_order_by_id : String → Result Thrown OrderResponse
  get_order_by_id id = as_user λ user. get_order grpc json dates identity orders id user.id
