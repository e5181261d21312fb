-- ===== src/Orders/Server.antt =====
-- The gRPC server of the orders service, apps/orders/internal/grpc/server.go. A call answers or
-- fails with a status; its log is left out.
use polyglot_ticketing_v.Base.{
  ℕ, pos, ◌*◌, ◌/◌, ◌%◌, String, Bool, Option, none, some, List, [], ◌∷◌, map, Result, ok, err,
}
use polyglot_ticketing_v.Value.{Value, Fields, str, arr, obj, end, entry, of_list}
use polyglot_ticketing_v.Contracts.ErrorItem.{ErrorItem}
use polyglot_ticketing_v.Contracts.ErrorCode.{ErrorCode}
use polyglot_ticketing_v.Contracts.OrderStatus.{OrderStatus}
use polyglot_ticketing_v.Contracts.GrpcStatus
use polyglot_ticketing_v.Platform.Dates.{Timestamp}
use polyglot_ticketing_v.Gateway.Orders.{
  OrderGrpcResponse, CreateOrderGrpcResponse, CreateOrderRequest, OrderRequest,
}
use polyglot_ticketing_v.Orders.{
  Status, created, canceled, awaiting_payment, complete, Order, ReservationResult, not_found,
  order_not_cancelable, order_not_found, reserved, Database,
}
use polyglot_ticketing_v.Orders.Service
use polyglot_ticketing_v.Orders.Service.{Failure, invalid, failed, code_string}

-- What `structuredError` makes: a status whose details are the JSON of `{ errors }`.
pub record StatusError : Type 0 where
  pub code : ℕ
  pub errors : List ErrorItem

abbrev field_then : Option String → Fields → Fields
field_then none rest = rest
field_then (some field) rest = entry "field" (str field) rest

-- `ValidationError` in JSON.
unfoldable pub item_value : ErrorItem → Value
item_value e =
    obj (entry "code" (str e.code) (field_then e.field (entry "message" (str e.message) end)))

unfoldable pub payload : StatusError → Value
payload e = obj (entry "errors" (arr (of_list (map item_value e.errors))) end)

abbrev pub failure : ℕ → ErrorCode → String → StatusError
failure status code message = record {
  code = status;
  errors = record { code = code_string code; message = message; field = none } ∷ [];
}

-- `timestamppb.New`
abbrev pub timestamp : ℕ → Timestamp
timestamp time = record { seconds = pos (time / 1000); nanos = pos (time % 1000 * 1_000_000) }

abbrev pub to_order_status : Status → OrderStatus
to_order_status created = OrderStatus.created
to_order_status canceled = OrderStatus.canceled
to_order_status awaiting_payment = OrderStatus.awaiting_payment
to_order_status complete = OrderStatus.complete

unfoldable pub to_order_response : Order → OrderGrpcResponse
to_order_response found = record {
  expires_at = timestamp found.expires_at;
  id = found.id;
  status = to_order_status found.status;
  ticket_id = found.ticket_id;
  user_id = found.user_id;
}

unfoldable pub to_create_order_response : ReservationResult → CreateOrderGrpcResponse
unfolding to_order_response
to_create_order_response result = record {
  created = result.created;
  order = to_order_response result.order;
}

-- The statuses of the calls' failures.
unfoldable pub create_order_failure : Failure → StatusError
unfolding code_string
create_order_failure (invalid errors) = record {
  code = GrpcStatus.invalid_argument;
  errors = errors;
}
create_order_failure (failed not_found) =
    failure GrpcStatus.not_found ErrorCode.not_found "Ticket not found."
create_order_failure (failed reserved) =
    failure GrpcStatus.already_exists ErrorCode.already_exists "Ticket is currently reserved."
create_order_failure (failed other) =
    failure GrpcStatus.internal ErrorCode.internal_error "Unable to create order."

unfoldable pub cancel_order_failure : Failure → StatusError
unfolding code_string
cancel_order_failure (invalid errors) = record {
  code = GrpcStatus.invalid_argument;
  errors = errors;
}
cancel_order_failure (failed order_not_found) =
    failure GrpcStatus.not_found ErrorCode.not_found "Order not found."
cancel_order_failure (failed order_not_cancelable) =
    failure GrpcStatus.already_exists ErrorCode.already_exists
      "Completed orders cannot be canceled."
cancel_order_failure (failed other) =
    failure GrpcStatus.internal ErrorCode.internal_error "Unable to cancel order."

unfoldable pub get_order_failure : Failure → StatusError
unfolding code_string
get_order_failure (invalid errors) = record { code = GrpcStatus.invalid_argument; errors = errors }
get_order_failure (failed order_not_found) =
    failure GrpcStatus.not_found ErrorCode.not_found "Order not found."
get_order_failure (failed other) =
    failure GrpcStatus.internal ErrorCode.internal_error "Unable to retrieve order."

abbrev pub answered {ℓ} :
    {A B : Type ℓ}
    → (Failure → StatusError)
    → (A → B)
    → Result Failure A × Database
    → Result StatusError B × Database
answered fails shows (err e, db) = (err (fails e), db)
answered fails shows (ok a, db) = (ok (shows a), db)

module _ (is_uuid : String → Bool) (cast : String → Option String) where
  unfoldable pub create_order :
      ℕ
      → ℕ
      → String
      → CreateOrderRequest
      → Database
      → Result StatusError CreateOrderGrpcResponse × Database
  unfolding create_order_failure to_create_order_response Service.reserve
  create_order clock now id request db =
      answered create_order_failure to_create_order_response
        (Service.reserve is_uuid cast clock now id request.ticket_id request.user_id db)

  unfoldable pub cancel_order :
      OrderRequest → Database → Result StatusError OrderGrpcResponse × Database
  unfolding cancel_order_failure to_order_response Service.cancel_order
  cancel_order request db =
      answered cancel_order_failure to_order_response
        (Service.cancel_order is_uuid cast request.order_id request.user_id db)

  unfoldable pub get_order :
      OrderRequest → Database → Result StatusError OrderGrpcResponse × Database
  unfolding get_order_failure to_order_response Service.get_order
  get_order request db =
      answered get_order_failure to_order_response
        (Service.get_order is_uuid cast request.order_id request.user_id db)
