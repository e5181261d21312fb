-- ===== src/Gateway/Errors.antt =====
-- The error values of the gateway: apps/api-gateway/src/errors/api-error.ts, error-code.ts,
-- grpc-error.ts and throw-grpc-error.ts. The children have the exception filter, the validation
-- errors and the theorems.
pub mod Filter
pub mod Validation
pub mod WellFormed
pub mod Contract
pub mod Secrecy
pub mod Backend
use polyglot_ticketing_v.Base.{
  ℕ, ℤ, String, Bool, true, false, ◌&&◌, Option, none, some, List, [], ◌∷◌, map, all, is_nat,
  default_to, if◌then◌else◌,
}
use polyglot_ticketing_v.Base.Text.{is_some}
use polyglot_ticketing_v.Value.{
  Value, str, arr, obj, Fields, end, entry, to_list, of_list, property, is_object, as_array,
  as_text, text_property, number_property, and_then,
}
use polyglot_ticketing_v.Value.Json.{Json}
pub use polyglot_ticketing_v.Contracts.ErrorItem.{ErrorItem}
use polyglot_ticketing_v.Contracts.ErrorCode
use polyglot_ticketing_v.Contracts.ErrorCode.{ErrorCode, error_code_name}
use polyglot_ticketing_v.Contracts.GrpcStatus

-- What a handler throws: an `HttpException` with its status and response, or any other value.
pub data Thrown : Type 0 where
  http : ℕ → Value → Thrown
  plain : Value → Thrown

-- `{ errors }`
abbrev pub error_response : List Value → Value
error_response errors = obj (entry "errors" (arr (of_list errors)) end)

abbrev pub field_entry : Option String → Fields
field_entry none = end
field_entry (some f) = entry "field" (str f) end

-- The object of one error, with `field` only where it is set.
unfoldable pub item_value : ErrorItem → Value
item_value e =
    obj (entry "message" (str e.message) (entry "code" (str e.code) (field_entry e.field)))

-- `new ApiError(status, errors)`
unfoldable pub api_error : ℕ → List ErrorItem → Thrown
api_error status errors = http status (error_response (map item_value errors))

abbrev to_known : ErrorCode → Option String → String
to_known ErrorCode.unspecified name = "INTERNAL_ERROR"
to_known code none = "INTERNAL_ERROR"
to_known code (some name) = name

unfoldable pub to_public_error_code : ErrorCode → String
unfolding error_code_name
to_public_error_code code = to_known code (error_code_name code)

-- `!('field' in value) || typeof value.field === 'string'`
abbrev pub optional_text : Option Value → Bool
optional_text none = true
optional_text (some v) = is_some (as_text v)

unfoldable pub is_error_item : Value → Bool
is_error_item v =
    is_object v
    && is_some (text_property "message" v)
    && is_some (text_property "code" v)
    && optional_text (property "field" v)

-- The properties of an error item, as its type lets them be read.
unfoldable pub as_error_item : Value → ErrorItem
as_error_item v = record {
  message = default_to "" (text_property "message" v);
  code = default_to "" (text_property "code" v);
  field = text_property "field" v;
}

-- A list with elements that all satisfy the test.
abbrev pub nonempty_all : (Value → Bool) → List Value → Option (List Value)
nonempty_all p [] = none
nonempty_all p (v ∷ vs) = if all p (v ∷ vs) then some (v ∷ vs) else none

-- `hasErrorItems`, with the errors that it finds.
unfoldable pub has_error_items : Value → Option (List Value)
has_error_items v = and_then (and_then (property "errors" v) as_array) (nonempty_all is_error_item)

-- `isGrpcStatusError`, with the code.
unfoldable pub is_grpc_status_error : Value → Option ℤ
is_grpc_status_error error = number_property "code" error

-- `error.details`, where it is a text.
unfoldable pub get_grpc_error_response : Json → Value → Option (List Value)
unfolding has_error_items
get_grpc_error_response json error =
    and_then (and_then (text_property "details" error) json.parse) has_error_items

unfoldable pub http_status_from_grpc_code : ℤ → ℕ
http_status_from_grpc_code code =
    if is_nat GrpcStatus.invalid_argument code
    then 400
    else if is_nat GrpcStatus.unauthenticated code
    then 401
    else if is_nat GrpcStatus.permission_denied code
    then 403
    else if is_nat GrpcStatus.not_found code
    then 404
    else if is_nat GrpcStatus.already_exists code
    then 409
    else if is_nat GrpcStatus.resource_exhausted code
    then 429
    else if is_nat GrpcStatus.unavailable code
    then 503
    else 500

unfoldable pub service_unavailable_item : ErrorItem
unfolding to_public_error_code
service_unavailable_item = record {
  message = "A required service is unavailable.";
  code = to_public_error_code ErrorCode.service_unavailable;
  field = none;
}

abbrev pub service_unavailable : Thrown
service_unavailable = api_error 503 (service_unavailable_item ∷ [])

-- The second test of `throwGatewayGrpcError`, where the details hold no errors.
abbrev pub without_details : ℤ → Option ErrorItem → Thrown
without_details code none = service_unavailable
without_details code (some item) =
    if is_nat GrpcStatus.invalid_argument code
    then api_error 400 (item ∷ [])
    else service_unavailable

abbrev pub with_status : Option ℤ → Option (List Value) → Option ErrorItem → Thrown
with_status none errors item = service_unavailable
with_status (some code) none item = without_details code item
with_status (some code) (some errors) item =
    api_error (http_status_from_grpc_code code) (map as_error_item errors)

-- What `throwGatewayGrpcError` throws.
unfoldable pub throw_gateway_grpc_error : Json → Value → Option ErrorItem → Thrown
unfolding api_error service_unavailable_item is_grpc_status_error get_grpc_error_response
    http_status_from_grpc_code as_error_item is_error_item
throw_gateway_grpc_error json error item =
    with_status (is_grpc_status_error error) (get_grpc_error_response json error) item
