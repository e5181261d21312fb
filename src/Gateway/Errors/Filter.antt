-- ===== src/Gateway/Errors/Filter.antt =====
-- The exception filter, apps/api-gateway/src/errors/api-error.filter.ts.
use polyglot_ticketing_v.Base.{
  ℕ, String, Bool, ◌&&◌, ◌||◌, Option, none, some, List, [], ◌∷◌, map, ltb, ◌==◌, if◌then◌else◌,
}
use polyglot_ticketing_v.Base.Text.{is_some}
use polyglot_ticketing_v.Value.{
  Value, str, arr, to_list, property, is_object, as_array, text_property, and_then,
}
use polyglot_ticketing_v.Contracts.ErrorCode
use polyglot_ticketing_v.Gateway.Errors.{
  ErrorItem, Thrown, http, plain, error_response, item_value, to_public_error_code, optional_text,
  nonempty_all,
}

-- The answer to the client: `response.status(status).json(body)`.
pub record Reply : Type 0 where
  pub status : ℕ
  pub body : Value

unfoldable pub is_error_item : Value → Bool
is_error_item v =
    is_object v
    && is_some (text_property "message" v)
    && is_some (text_property "code" v)
    && optional_text (property "field" v)

unfoldable pub get_http_status : Thrown → ℕ
get_http_status (http status response) = status
get_http_status (plain exception) = 500

-- `getStructuredResponse`, with the errors alone; the other properties of the response go.
unfoldable pub get_structured_response : Value → Option (List Value)
get_structured_response response =
    and_then (and_then (property "errors" response) as_array) (nonempty_all is_error_item)

-- The texts of a list, the rest filtered out.
abbrev pub texts : List Value → List String
texts [] = []
texts (str s ∷ vs) = s ∷ texts vs
texts (_ ∷ vs) = texts vs

abbrev pub message_texts : Option Value → List String
message_texts (some (str s)) = s ∷ []
message_texts (some (arr vs)) = texts (to_list vs)
message_texts _ = "Request failed." ∷ []

unfoldable pub get_messages : Value → List String
get_messages (str s) = s ∷ []
get_messages response = message_texts (property "message" response)

unfoldable pub get_code_for_status : ℕ → String
get_code_for_status status =
    if status == 400
    then to_public_error_code ErrorCode.invalid_argument
    else if status == 401
    then to_public_error_code ErrorCode.unauthenticated
    else if status == 403
    then to_public_error_code ErrorCode.forbidden
    else if status == 404
    then to_public_error_code ErrorCode.not_found
    else if status == 409
    then to_public_error_code ErrorCode.already_exists
    else if status == 429
    then to_public_error_code ErrorCode.rate_limited
    else to_public_error_code ErrorCode.internal_error

abbrev pub message_item : ℕ → String → ErrorItem
message_item status message = record {
  message = message;
  code = get_code_for_status status;
  field = none;
}

abbrev pub is_unavailable : ℕ → Bool
is_unavailable status = status == 503 || status == 502

-- The error of a server fault.
unfoldable pub fault_item : ℕ → ErrorItem
fault_item status = record {
  message =
      if is_unavailable status
      then "A required service is unavailable."
      else "An unexpected error occurred.";
  code =
      if is_unavailable status
      then to_public_error_code ErrorCode.service_unavailable
      else to_public_error_code ErrorCode.internal_error;
  field = none;
}

abbrev pub client_errors : ℕ → Value → Option (List Value) → List Value
client_errors status response (some errors) = errors
client_errors status response none =
    map (λ message. item_value (message_item status message)) (get_messages response)

-- The errors of the body of `getErrorResponse`.
unfoldable pub response_errors : Thrown → ℕ → List Value
unfolding get_structured_response get_messages fault_item
response_errors (http s response) status =
    if ltb status 500
    then client_errors status response (get_structured_response response)
    else item_value (fault_item status) ∷ []
response_errors (plain exception) status = item_value (fault_item status) ∷ []

-- `ApiErrorFilter.catch`
unfoldable pub catch : Thrown → Reply
unfolding get_http_status response_errors
catch exception =
    let status = get_http_status exception in
    record { status = status; body = error_response (response_errors exception status) }
