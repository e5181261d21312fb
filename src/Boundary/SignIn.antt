-- ===== src/Boundary/SignIn.antt =====
-- What a client is told of a sign-in, through both services.
use polyglot_ticketing_v.Base.{
  ◌≡◌, refl, ap, ◌∙◌, Option, none, [], ◌∷◌, map, Result, ok, err, map_err, String, if◌then◌else◌,
  arith,
}
use polyglot_ticketing_v.Value.{Value, text_property}
use polyglot_ticketing_v.Value.Json.{Json, RoundTrips}
use polyglot_ticketing_v.Contracts.ErrorItem.{ErrorItem}
use polyglot_ticketing_v.Platform.Metadata.{MetadataApi}
use polyglot_ticketing_v.Platform.WebHeaders.{HeadersApi}
use polyglot_ticketing_v.Gateway.Errors
use polyglot_ticketing_v.Gateway.Errors.{http_status_from_grpc_code}
use polyglot_ticketing_v.Gateway.Errors.Filter.{Reply, catch}
use polyglot_ticketing_v.Gateway.Errors.Secrecy.{fault_reply}
use polyglot_ticketing_v.Gateway.Identity.Headers.{RequestHeaders}
use polyglot_ticketing_v.Gateway.Identity.Metadata.{create_auth_request_metadata}
use polyglot_ticketing_v.Gateway.Identity.AuthService.{sign_in, invalid_item}
use polyglot_ticketing_v.Identity.Errors.{
  StructuredGrpcError, details, create_signin_validation_internal_error,
  create_email_not_verified_error, create_invalid_credentials_error,
}
use polyglot_ticketing_v.Identity.Mappers.{map_protovalidate_violation, is_code}
use polyglot_ticketing_v.Identity.Mappers.Signin.{
  get_external_error_code, map_better_auth_sign_in_error,
}
use polyglot_ticketing_v.Identity.Service
use polyglot_ticketing_v.Identity.Service.{
  IdentityAuthContext, SignInRequest, SignInResponse, Validation, valid, invalid, error,
  to_validation_result, validate_sign_in_request, try_sign_in,
}
use polyglot_ticketing_v.Boundary.{connect}
use polyglot_ticketing_v.Boundary.Expected.{
  item, violation_item, either, code_of_body, sign_in_refusal, violations_lem, sign_in_code_lem,
  sign_in_refusal_lem,
}
use polyglot_ticketing_v.Boundary.Replies.{client_reply, wire_reply, catch-to_wire}

-- The reply to a failed sign-in, by the code of the failure.
abbrev refused_reply : Option String → Reply
refused_reply code =
    if is_code "EMAIL_NOT_VERIFIED" code
    then client_reply 401 (create_email_not_verified_error ∷ [])
    else if is_code "INVALID_EMAIL_OR_PASSWORD" code
    then client_reply 401 (create_invalid_credentials_error ∷ [])
    else fault_reply 500

-- The answer to a sign-in as the mappers make it.
abbrev mapped_answer : Validation → Result Value SignInResponse → Result Reply SignInResponse
mapped_answer (invalid []) result =
    err (client_reply 400 (invalid_item "Signin data is invalid." ∷ []))
mapped_answer (invalid (violation ∷ violations)) result =
    err (client_reply 400 (map map_protovalidate_violation (violation ∷ violations)))
mapped_answer error result = err (fault_reply 500)
mapped_answer valid (err e) = err (refused_reply (get_external_error_code e))
mapped_answer valid (ok response) = ok response

-- The answer to a sign-in, by what protovalidate says of the request and how the sign-in with
-- Better Auth ends; the code is that of the body, or else that of the failure itself.
abbrev pub sign_in_answer : Validation → Result Value SignInResponse → Result Reply SignInResponse
sign_in_answer (invalid []) result =
    err (client_reply 400 (item "INVALID_ARGUMENT" "Signin data is invalid." none ∷ []))
sign_in_answer (invalid (violation ∷ violations)) result =
    err (client_reply 400 (map violation_item (violation ∷ violations)))
sign_in_answer error result = err (fault_reply 500)
sign_in_answer valid (err e) =
    err (sign_in_refusal (either (code_of_body e) (text_property "code" e)))
sign_in_answer valid (ok response) = ok response

mapped_answer-expected :
    (v : Validation) (r : Result Value SignInResponse) → mapped_answer v r ≡ sign_in_answer v r
unfolding Errors.to_public_error_code
mapped_answer-expected (invalid []) r = refl
mapped_answer-expected (invalid (violation ∷ violations)) r =
    ap (λ items. err (client_reply 400 items)) (violations_lem (violation ∷ violations))
mapped_answer-expected error r = refl
mapped_answer-expected valid (err e) =
    ap (λ code. err (refused_reply code)) (sign_in_code_lem e)
    ∙ ap (λ reply. err reply)
        (sign_in_refusal_lem (either (code_of_body e) (text_property "code" e)))
mapped_answer-expected valid (ok response) = refl

abbrev fallback : ErrorItem
fallback = invalid_item "Signin data is invalid."

abbrev reply_to : StructuredGrpcError → Reply
reply_to e = wire_reply fallback e.code e.errors

reply_to-refused :
    (e : Value)
    → reply_to (map_better_auth_sign_in_error e) ≡ refused_reply (get_external_error_code e)
unfolding map_better_auth_sign_in_error http_status_from_grpc_code
reply_to-refused e = ground arith

module _ (grpc : MetadataApi) (web : HeadersApi) (json : Json)
    (context : IdentityAuthContext grpc web) (headers : RequestHeaders) (m : grpc.Metadata)
    (made : create_auth_request_metadata grpc headers ≡ ok m) where
  answer-of_error :
      (request : SignInRequest) (e : StructuredGrpcError)
      → Service.sign_in grpc web context request m ≡ err e
      → RoundTrips json (details e)
      → map_err catch (sign_in grpc json (connect grpc web json context) request headers)
        ≡ err (reply_to e)
  unfolding sign_in
  answer-of_error request e failed trip =
      rw (made, failed) (ap (λ reply. err reply) (catch-to_wire json fallback e.code e.errors trip))

  answer-of_service :
      (request : SignInRequest) (v : Validation) (r : Result Value SignInResponse)
      → context.validate_sign_in request ≡ v
      → try_sign_in grpc web context request m ≡ r
      → ((e : StructuredGrpcError)
          → Service.sign_in grpc web context request m ≡ err e
          → RoundTrips json (details e))
      → map_err catch (sign_in grpc json (connect grpc web json context) request headers)
        ≡ mapped_answer v r
  unfolding sign_in Service.sign_in validate_sign_in_request to_validation_result
      http_status_from_grpc_code
  answer-of_service request (invalid []) r checked done trip =
      answer-of_error request (record { code = 3; errors = [] }) (rw checked) (trip _ (rw checked))
  answer-of_service request (invalid (violation ∷ violations)) r checked done trip =
      answer-of_error request
        (record { code = 3; errors = map map_protovalidate_violation (violation ∷ violations) })
        (rw checked) (trip _ (rw checked))
  answer-of_service request error r checked done trip =
      answer-of_error request
        (record { code = 13; errors = create_signin_validation_internal_error ∷ [] }) (rw checked)
        (trip _ (rw checked))
  answer-of_service request valid (err e) checked done trip =
      answer-of_error request (map_better_auth_sign_in_error e) (rw (checked, done))
        (trip _ (rw (checked, done)))
      ∙ ap (λ reply. err reply) (reply_to-refused e)
  answer-of_service request valid (ok response) checked done trip = rw (made, checked, done)

-- A sign-in through both services, whatever protovalidate says of the request and Better Auth does:
-- the response of Identity where it gives one; a violation is told with status 400 and the item of
-- its field, one for each; an unverified email, and a wrong email or password, as the code in the
-- body of the failure or else the code of the failure says, each with status 401 and the item for
-- it; anything else is the fixed document of status 500. The headers can be sent on, and JSON reads
-- back the error that Identity writes.
pub sign_in_answers :
    (grpc : MetadataApi) (web : HeadersApi) (json : Json) (context : IdentityAuthContext grpc web)
    (headers : RequestHeaders) (m : grpc.Metadata) (request : SignInRequest)
    → create_auth_request_metadata grpc headers ≡ ok m
    → ((e : StructuredGrpcError)
        → Service.sign_in grpc web context request m ≡ err e
        → RoundTrips json (details e))
    → map_err catch (sign_in grpc json (connect grpc web json context) request headers)
      ≡ sign_in_answer (context.validate_sign_in request) (try_sign_in grpc web context request m)
sign_in_answers grpc web json context headers m request made trip =
    answer-of_service grpc web json context headers m made request _ _ refl refl trip
    ∙ mapped_answer-expected _ _
