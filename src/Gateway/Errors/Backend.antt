-- ===== src/Gateway/Errors/Backend.antt =====
-- A backend's error on its way to the client: apps/api-gateway/src/errors/grpc-error.ts,
-- throw-grpc-error.ts and then the filter.
use polyglot_ticketing_v.Base.{
  ℕ, ℤ, ◌≡◌, ap, inl, inr, Option-cases, Bool-cases, true, false, any, ◌==◌, is_nat, String, Option,
  none, some, List, [], ◌∷◌, map, ltb, if◌then◌else◌, arith,
}
use polyglot_ticketing_v.Base.Text.{is_some}
use polyglot_ticketing_v.Value.{Value, number_property, num, str, obj, end, entry}
use polyglot_ticketing_v.Value.Json.{Json, RoundTrips}
use polyglot_ticketing_v.Gateway.Errors.{
  ErrorItem, error_response, item_value, api_error, get_grpc_error_response,
  http_status_from_grpc_code, throw_gateway_grpc_error, service_unavailable,
  service_unavailable_item, is_grpc_status_error,
}
use polyglot_ticketing_v.Contracts.GrpcStatus
use polyglot_ticketing_v.Gateway.Errors.Filter.{Reply, get_http_status, catch}
use polyglot_ticketing_v.Gateway.Errors.Contract.{
  ItemWriter, has_error_items-error_response, map-as_error_item-write,
}
use polyglot_ticketing_v.Gateway.Errors.Secrecy.{fault_reply, catch-api_error}

-- The error that the gRPC client throws for a status with details.
abbrev pub grpc_error : ℤ → String → Value
grpc_error code details = obj (entry "code" (num code) (entry "details" (str details) end))

-- The details that a backend sends with structured errors.
abbrev pub document : ItemWriter → List ErrorItem → Value
document w errors = error_response (map w.write errors)

module _ (json : Json) (w : ItemWriter) (code : ℤ) (e : ErrorItem) (es : List ErrorItem)
    (item : Option ErrorItem) (trip : RoundTrips json (document w (e ∷ es))) where
  get_grpc_error_response-document :
      get_grpc_error_response json (grpc_error code (json.stringify (document w (e ∷ es))))
      ≡ some (map w.write (e ∷ es))
  unfolding get_grpc_error_response
  get_grpc_error_response-document = rw trip (has_error_items-error_response w e es)

  -- A structured backend error is thrown on as an `ApiError` with the status of its code and the
  -- same items.
  pub throw_gateway_grpc_error-document :
      throw_gateway_grpc_error json (grpc_error code (json.stringify (document w (e ∷ es)))) item
      ≡ api_error (http_status_from_grpc_code code) (e ∷ es)
  unfolding throw_gateway_grpc_error
  throw_gateway_grpc_error-document =
      rw get_grpc_error_response-document
        (ap (api_error (http_status_from_grpc_code code)) (map-as_error_item-write w (e ∷ es)))

-- The reply to a backend that fails with a code and structured errors, at least one. The status
-- is that of the code. Below 500 the client gets the backend's errors as they are, in order; from
-- 500 on (an internal error, an unavailable backend, a code without a mapping) it gets the fixed
-- document of that status. JSON reads back the document that the backend wrote.
pub catch-throw_gateway_grpc_error :
    (json : Json) (w : ItemWriter) (code : ℤ) (e : ErrorItem) (es : List ErrorItem)
    (item : Option ErrorItem)
    → RoundTrips json (document w (e ∷ es))
    → catch (
        throw_gateway_grpc_error json (grpc_error code (json.stringify (document w (e ∷ es)))) item)
      ≡ (if ltb (http_status_from_grpc_code code) 500
          then record {
            status = http_status_from_grpc_code code;
            body = error_response (map item_value (e ∷ es));
          }
          else fault_reply (http_status_from_grpc_code code))
catch-throw_gateway_grpc_error json w code e es item trip =
    rw (throw_gateway_grpc_error-document json w code e es item trip)
      (catch-api_error (http_status_from_grpc_code code) e es)

catch-service_unavailable : catch service_unavailable ≡ fault_reply 503
catch-service_unavailable = catch-api_error 503 service_unavailable_item []

-- What such a reply should be, by the code.
abbrev pub reply_by_code : ErrorItem → Option ℤ → Reply
reply_by_code item none = fault_reply 503
reply_by_code item (some code) =
    if is_nat GrpcStatus.invalid_argument code
    then record { status = 400; body = error_response (item_value item ∷ []) }
    else fault_reply 503

-- The reply to a backend that fails without structured errors, where the route has an item for
-- invalid arguments: the code INVALID_ARGUMENT gets status 400 and that item; any other code, and
-- an error with no numeric code, gets the fixed document of status 503.
pub catch-throw_gateway_grpc_error_plain :
    (json : Json) (error : Value) (item : ErrorItem)
    → get_grpc_error_response json error ≡ none
    → catch (throw_gateway_grpc_error json error (some item))
      ≡ reply_by_code item (is_grpc_status_error error)
unfolding throw_gateway_grpc_error
catch-throw_gateway_grpc_error_plain json error item unstructured =
    elim (Option-cases (is_grpc_status_error error)) [
      | inl uncoded ↦ rw (unstructured, uncoded) catch-service_unavailable
      | inr (code, coded) ↦ elim (Bool-cases (is_nat 3 code)) [
        | inl invalid ↦ rw (unstructured, coded, invalid) (catch-api_error 400 item [])
        | inr other ↦ rw (unstructured, coded, other) catch-service_unavailable
      ]
    ]

-- The statuses of the errors that a failing backend can cause.
abbrev pub gateway_statuses : List ℕ
gateway_statuses = 400 ∷ 401 ∷ 403 ∷ 404 ∷ 409 ∷ 429 ∷ 500 ∷ 503 ∷ []

-- Whatever a backend call fails with, the status of what is thrown on is 400, 401, 403, 404, 409,
-- 429, 500 or 503.
pub throw_gateway_grpc_error_statuses :
    (json : Json) (error : Value) (item : Option ErrorItem)
    → any (λ s. s == get_http_status (throw_gateway_grpc_error json error item)) gateway_statuses
      ≡ true
unfolding throw_gateway_grpc_error get_http_status
throw_gateway_grpc_error_statuses json error item = ground arith

true-ne-false : true ≡ false → ⊥
true-ne-false e = cc

-- An error with no numeric code, as the gateway's own code throws, is thrown on as an unavailable
-- service.
pub throw_gateway_grpc_error-uncoded :
    (json : Json) (error : Value) (item : Option ErrorItem)
    → is_some (number_property "code" error) ≡ false
    → throw_gateway_grpc_error json error item ≡ service_unavailable
unfolding throw_gateway_grpc_error
throw_gateway_grpc_error-uncoded json error item h =
    elim (Option-cases (number_property "code" error)) [
      | inl missing ↦ rw (missing, is_grpc_status_error)
      | inr (code, found) ↦ absurd (true-ne-false (rw found at h))
    ]
