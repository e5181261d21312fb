-- ===== src/Boundary/Verification.antt =====
-- What a client is told of the verification of an email and of a sign-out, through both services.
use polyglot_ticketing_v.Base.{
  pos, ◌≡◌, refl, ap, ◌∙◌, Bool, true, false, Bool-cases, inl, inr, Option, none, some, [], ◌∷◌,
  Result, ok, err, map_err, String, if◌then◌else◌,
}
use polyglot_ticketing_v.Value.{Value, text_property}
use polyglot_ticketing_v.Value.Json.{Json, RoundTrips}
use polyglot_ticketing_v.Contracts.ErrorItem.{ErrorItem}
use polyglot_ticketing_v.Platform.Metadata.{MetadataApi}
use polyglot_ticketing_v.Platform.WebHeaders.{HeadersApi}
use polyglot_ticketing_v.Platform.Dates.{DateApi}
use polyglot_ticketing_v.Gateway.Errors.{Thrown, http_status_from_grpc_code}
use polyglot_ticketing_v.Gateway.Errors.Filter.{Reply, catch}
use polyglot_ticketing_v.Gateway.Errors.Secrecy.{fault_reply}
use polyglot_ticketing_v.Gateway.Errors.Backend.{catch-throw_gateway_grpc_error}
use polyglot_ticketing_v.Gateway.Identity.Headers.{RequestHeaders}
use polyglot_ticketing_v.Gateway.Identity.Metadata.{create_session_request_metadata}
use polyglot_ticketing_v.Gateway.Identity.AuthService.{verify_email}
use polyglot_ticketing_v.Gateway.Identity.AuthController.{Cookie, session_cookie, post_sign_out}
use polyglot_ticketing_v.Identity.Errors.{
  StructuredGrpcError, details, create_sign_out_internal_error,
}
use polyglot_ticketing_v.Identity.Mappers.{structured, map_better_auth_sign_out_error}
use polyglot_ticketing_v.Identity.Mappers.EmailVerification.{
  has_verification_error_code, map_email_verification_error,
}
use polyglot_ticketing_v.Identity.RequestHeaders.{create_session_request_headers}
use polyglot_ticketing_v.Identity.Service
use polyglot_ticketing_v.Identity.Service.{IdentityAuthContext}
use polyglot_ticketing_v.Boundary.{identity_writer, connect}
use polyglot_ticketing_v.Boundary.Expected.{
  invalid_link, link_refusal, either, code_of_body, link_refusal_lem,
}
use polyglot_ticketing_v.Boundary.Replies.{client_reply}

-- The item for a verification that fails for another reason than its link.
abbrev not_verified : ErrorItem
not_verified = record { message = "Unable to verify email."; code = "INTERNAL_ERROR"; field = none }

-- The answer to a link of a mail as the mapper makes it.
abbrev mapped_answer : Result Value (Unit {0}) → Result Reply Bool
mapped_answer (ok done) = ok true
mapped_answer (err e) = err (
    if has_verification_error_code e then client_reply 401 (invalid_link ∷ []) else fault_reply 500)

-- The answer, by what Better Auth does with its token; the code is that of the failure, or else
-- that of its body.
abbrev pub verification_answer : Result Value (Unit {0}) → Result Reply Bool
verification_answer (ok done) = ok true
verification_answer (err e) = err (link_refusal (either (text_property "code" e) (code_of_body e)))

mapped_answer-expected : (r : Result Value (Unit {0})) → mapped_answer r ≡ verification_answer r
mapped_answer-expected (ok done) = refl
mapped_answer-expected (err e) = ap (λ reply. err reply) (link_refusal_lem e)

map_email_verification_error-accepted :
    (e : Value)
    → has_verification_error_code e ≡ true
    → map_email_verification_error e ≡ structured 16 invalid_link
unfolding map_email_verification_error
map_email_verification_error-accepted e h = rw h

map_email_verification_error-other :
    (e : Value)
    → has_verification_error_code e ≡ false
    → map_email_verification_error e ≡ structured 13 not_verified
unfolding map_email_verification_error
map_email_verification_error-other e h = rw h

module _ (grpc : MetadataApi) (web : HeadersApi) (json : Json)
    (context : IdentityAuthContext grpc web) (token : String) where
  answer-of_service :
      (r : Result Value (Unit {0}))
      → context.verify_email token ≡ r
      → ((e : StructuredGrpcError)
          → Service.verify_email grpc web context token ≡ err e
          → RoundTrips json (details e))
      → map_err catch (verify_email grpc json (connect grpc web json context) token)
        ≡ mapped_answer r
  unfolding verify_email Service.verify_email http_status_from_grpc_code details
  answer-of_service (ok done) known trip = rw known
  answer-of_service (err e) known trip = elim (Bool-cases (has_verification_error_code e)) [
    | inl named ↦
        let mapped = map_email_verification_error-accepted e named in
        rw (known, mapped, named)
          (ap (λ reply. err reply)
            (catch-throw_gateway_grpc_error json identity_writer (pos 16) invalid_link [] none
              (trip (structured 16 invalid_link) (rw (known, mapped)))))
    | inr other ↦
        let mapped = map_email_verification_error-other e other in
        rw (known, mapped, other)
          (ap (λ reply. err reply)
            (catch-throw_gateway_grpc_error json identity_writer (pos 13) not_verified [] none
              (trip (structured 13 not_verified) (rw (known, mapped)))))
  ]

  -- A link of a mail through both services, whatever Better Auth does with its token: a token that
  -- it takes is answered with `true`; one that is invalid or has expired, by the code INVALID_TOKEN
  -- or TOKEN_EXPIRED of the failure or else of its body, with status 401 and the item for it; any
  -- other failure with the fixed document of status 500. JSON reads back the error that Identity
  -- writes.
  pub verify_email_answers :
      ((e : StructuredGrpcError)
        → Service.verify_email grpc web context token ≡ err e
        → RoundTrips json (details e))
      → map_err catch (verify_email grpc json (connect grpc web json context) token)
        ≡ verification_answer (context.verify_email token)
  verify_email_answers trip = answer-of_service _ refl trip ∙ mapped_answer-expected _

-- The reply to a sign-out through both services, with its cookie.
abbrev pub sign_out_answer :
    Bool → Result Value (Unit {0}) → Option Cookie × Result Reply (Unit {0})
sign_out_answer production (ok done) = (some (session_cookie production "" (pos 0)), ok tt)
sign_out_answer production (err e) = (none, err (fault_reply 500))

module _ (grpc : MetadataApi) (web : HeadersApi) (json : Json)
    (context : IdentityAuthContext grpc web) (dates : DateApi) (production : Bool)
    (headers : RequestHeaders) (m : grpc.Metadata) where
  abbrev pub with_reply :
      Option Cookie × Result Thrown (Unit {0}) → Option Cookie × Result Reply (Unit {0})
  with_reply (cookie, result) = (cookie, map_err catch result)

  ended :
      (r : Result Value (Unit {0}))
      → create_session_request_metadata grpc headers ≡ ok m
      → context.sign_out (create_session_request_headers grpc web m) ≡ r
      → RoundTrips json (details (structured 13 create_sign_out_internal_error))
      → with_reply
          (post_sign_out grpc json dates (connect grpc web json context) production headers)
        ≡ sign_out_answer production r
  unfolding post_sign_out Service.sign_out map_better_auth_sign_out_error http_status_from_grpc_code
      details
  ended (ok done) made known trip = rw (made, known)
  ended (err e) made known trip =
      rw (made, known)
        (ap (λ reply. (none, err reply))
          (catch-throw_gateway_grpc_error json identity_writer (pos 13)
            create_sign_out_internal_error [] none trip))

-- A sign-out through both services: where Better Auth ends the session, the cookie is cleared; where
-- it fails, no cookie is set and the reply is the fixed document of status 500. The headers can be
-- sent on, and JSON reads back the error that Identity writes.
pub sign_out_answers :
    (grpc : MetadataApi) (web : HeadersApi) (json : Json) (context : IdentityAuthContext grpc web)
    (dates : DateApi) (production : Bool) (headers : RequestHeaders) (m : grpc.Metadata)
    → create_session_request_metadata grpc headers ≡ ok m
    → RoundTrips json (details (structured 13 create_sign_out_internal_error))
    → with_reply grpc web json context dates production headers m
        (post_sign_out grpc json dates (connect grpc web json context) production headers)
      ≡ sign_out_answer production (context.sign_out (create_session_request_headers grpc web m))
sign_out_answers grpc web json context dates production headers m made trip =
    ended grpc web json context dates production headers m _ made refl trip
