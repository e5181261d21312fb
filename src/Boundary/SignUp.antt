-- ===== src/Boundary/SignUp.antt =====
-- What a client is told of a sign-up, through both services.
use polyglot_ticketing_v.Base.{
  ℕ, ℤ, ◌≡◌, refl, ◌∙◌, ap, Option, none, some, List, [], ◌∷◌, map, Result, ok, err, map_err,
  if◌then◌else◌, is_nat, at_least, below, ◌&&◌, arith,
}
use polyglot_ticketing_v.Value.{Value}
use polyglot_ticketing_v.Value.Json.{Json, RoundTrips}
use polyglot_ticketing_v.Contracts.ErrorItem.{ErrorItem}
use polyglot_ticketing_v.Platform.Metadata.{MetadataApi}
use polyglot_ticketing_v.Platform.WebHeaders.{HeadersApi}
use polyglot_ticketing_v.Gateway.Errors
use polyglot_ticketing_v.Gateway.Errors.{http_status_from_grpc_code}
use polyglot_ticketing_v.Gateway.Errors.Filter.{Reply, catch}
use polyglot_ticketing_v.Gateway.Errors.Secrecy.{fault_reply}
use polyglot_ticketing_v.Gateway.Identity.AuthService.{sign_up, invalid_item}
use polyglot_ticketing_v.Identity.Errors.{
  StructuredGrpcError, details, create_signup_validation_internal_error,
}
use polyglot_ticketing_v.Identity.Mappers.{map_protovalidate_violation}
use polyglot_ticketing_v.Identity.Mappers.Signup.{
  get_http_status_code, get_error_item, status_code_of, get_grpc_status_code, map_better_auth_error,
}
use polyglot_ticketing_v.Identity.Service
use polyglot_ticketing_v.Identity.Service.{
  IdentityAuthContext, SignUpRequest, SignUpResponse, User, Validation, valid, invalid, error,
  to_validation_result, validate_sign_up_request, require_valid,
}
use polyglot_ticketing_v.Boundary.{connect}
use polyglot_ticketing_v.Boundary.Expected.{
  violation_item, invalid_data, code_of_body, http_status, sign_up_item, violations_lem,
  get_error_item_lem, http_status_lem,
}
use polyglot_ticketing_v.Boundary.Replies.{client_reply, wire_reply, catch-to_wire}

-- The reply to a failure of Better Auth: a conflict and the other client errors of HTTP are told
-- with their item, any other failure is an internal error.
abbrev pub failure_reply : ErrorItem → Option ℤ → Reply
failure_reply item none = fault_reply 500
failure_reply item (some status) =
    if is_nat 409 status
    then client_reply 409 (item ∷ [])
    else if at_least 400 status && below 500 status
    then client_reply 400 (item ∷ [])
    else fault_reply 500

-- The answer to a sign-up as the mappers make it.
abbrev mapped_answer : Validation → Result Value User → Result Reply SignUpResponse
mapped_answer (invalid []) result =
    err (client_reply 400 (invalid_item "Signup data is invalid." ∷ []))
mapped_answer (invalid (violation ∷ violations)) result =
    err (client_reply 400 (map map_protovalidate_violation (violation ∷ violations)))
mapped_answer error result = err (fault_reply 500)
mapped_answer valid (err e) = err (failure_reply (get_error_item e) (get_http_status_code e))
mapped_answer valid (ok user) = ok (record { user_id = user.id; email = user.email })

-- The answer to a sign-up, by what protovalidate says of the request and what Better Auth does.
abbrev pub sign_up_answer : Validation → Result Value User → Result Reply SignUpResponse
sign_up_answer (invalid []) result = err (client_reply 400 (invalid_data ∷ []))
sign_up_answer (invalid (violation ∷ violations)) result =
    err (client_reply 400 (map violation_item (violation ∷ violations)))
sign_up_answer error result = err (fault_reply 500)
sign_up_answer valid (err e) =
    err (failure_reply (sign_up_item (code_of_body e) (http_status e)) (http_status e))
sign_up_answer valid (ok user) = ok (record { user_id = user.id; email = user.email })

mapped_answer-expected :
    (v : Validation) (r : Result Value User) → mapped_answer v r ≡ sign_up_answer v r
unfolding Errors.to_public_error_code
mapped_answer-expected (invalid []) r = refl
mapped_answer-expected (invalid (violation ∷ violations)) r =
    ap (λ items. err (client_reply 400 items)) (violations_lem (violation ∷ violations))
mapped_answer-expected error r = refl
mapped_answer-expected valid (err e) =
    ap (λ item. err (failure_reply item (get_http_status_code e))) (get_error_item_lem e)
    ∙ ap (λ status. err (failure_reply (sign_up_item (code_of_body e) (http_status e)) status))
        (http_status_lem e)
mapped_answer-expected valid (ok user) = refl

wire_reply-failure :
    (fallback item : ErrorItem) (status : Option ℤ)
    → wire_reply fallback (status_code_of status) (item ∷ []) ≡ failure_reply item status
unfolding http_status_from_grpc_code
wire_reply-failure fallback item none = refl
wire_reply-failure fallback item (some status) = ground arith

module _ (grpc : MetadataApi) (web : HeadersApi) (json : Json)
    (context : IdentityAuthContext grpc web) where
  -- The gateway's answer where the service throws.
  answer-of_error :
      (request : SignUpRequest) (code : ℕ) (items : List ErrorItem)
      → Service.sign_up grpc web context request ≡ err (record { code = code; errors = items })
      → ((e : StructuredGrpcError)
          → Service.sign_up grpc web context request ≡ err e
          → RoundTrips json (details e))
      → map_err catch (sign_up grpc json (connect grpc web json context) request)
        ≡ err (wire_reply (invalid_item "Signup data is invalid.") code items)
  unfolding sign_up
  answer-of_error request code items failed trip = rw failed (
      ap (λ reply. err reply)
        (catch-to_wire json (invalid_item "Signup data is invalid.") code items (trip _ failed)))

  answer-of_service :
      (request : SignUpRequest) (v : Validation) (r : Result Value User)
      → context.validate_sign_up request ≡ v
      → context.sign_up_email request ≡ r
      → ((e : StructuredGrpcError)
          → Service.sign_up grpc web context request ≡ err e
          → RoundTrips json (details e))
      → map_err catch (sign_up grpc json (connect grpc web json context) request)
        ≡ mapped_answer v r
  unfolding sign_up Service.sign_up validate_sign_up_request to_validation_result
      map_better_auth_error get_grpc_status_code http_status_from_grpc_code
  answer-of_service request (invalid []) r checked done trip =
      answer-of_error request 3 [] (rw checked) trip
  answer-of_service request (invalid (violation ∷ violations)) r checked done trip =
      answer-of_error request 3 (map map_protovalidate_violation (violation ∷ violations))
        (rw checked) trip
  answer-of_service request error r checked done trip =
      answer-of_error request 13 (create_signup_validation_internal_error ∷ []) (rw checked) trip
  answer-of_service request valid (err e) checked done trip =
      answer-of_error request (status_code_of (get_http_status_code e)) (get_error_item e ∷ [])
        (rw (checked, done)) trip
      ∙ ap (λ reply. err reply)
          (wire_reply-failure (invalid_item "Signup data is invalid.") (get_error_item e)
            (get_http_status_code e))
  answer-of_service request valid (ok user) checked done trip = rw (checked, done)

  -- A sign-up through both services, whatever protovalidate says of the request and Better Auth
  -- does: a created user is answered with its id and email; a violation is told with status 400 and
  -- the item of its field, one for each; a conflict with status 409 and another client error of
  -- Better Auth with status 400, each with the item of the code in its body, or else of its status;
  -- anything else is the fixed document of status 500. JSON reads back the error that Identity
  -- writes.
  pub sign_up_answers :
      (request : SignUpRequest)
      → ((e : StructuredGrpcError)
          → Service.sign_up grpc web context request ≡ err e
          → RoundTrips json (details e))
      → map_err catch (sign_up grpc json (connect grpc web json context) request)
        ≡ sign_up_answer (context.validate_sign_up request) (context.sign_up_email request)
  sign_up_answers request trip =
      answer-of_service request _ _ refl refl trip ∙ mapped_answer-expected _ _
