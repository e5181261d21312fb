-- ===== src/Boundary/SessionReplies.antt =====
-- What a client is told whose session or whose credentials are not accepted.
use polyglot_ticketing_v.Base.{pos, ◌≡◌, Option, some, [], ◌∷◌, ok, err}
use polyglot_ticketing_v.Value.{Value}
use polyglot_ticketing_v.Value.Json.{Json, RoundTrips}
use polyglot_ticketing_v.Contracts.ErrorItem.{ErrorItem}
use polyglot_ticketing_v.Contracts.GrpcStatus
use polyglot_ticketing_v.Platform.Metadata.{MetadataApi}
use polyglot_ticketing_v.Platform.WebHeaders.{HeadersApi}
use polyglot_ticketing_v.Gateway.Errors
use polyglot_ticketing_v.Gateway.Errors.{
  Thrown, error_response, throw_gateway_grpc_error, http_status_from_grpc_code,
}
use polyglot_ticketing_v.Gateway.Errors.Filter.{catch}
use polyglot_ticketing_v.Gateway.Errors.Backend.{catch-throw_gateway_grpc_error}
use polyglot_ticketing_v.Gateway.Identity.Headers.{RequestHeaders}
use polyglot_ticketing_v.Gateway.Identity.Metadata.{create_auth_request_metadata}
use polyglot_ticketing_v.Gateway.Identity.AuthService.{sign_in, invalid_item}
use polyglot_ticketing_v.Identity.Errors.{details, create_invalid_credentials_error}
use polyglot_ticketing_v.Identity.Mappers.{structured, body_code, first_some, is_code}
use polyglot_ticketing_v.Identity.Mappers.Signin.{map_better_auth_sign_in_error}
use polyglot_ticketing_v.Identity.RequestHeaders.{create_auth_request_headers}
use polyglot_ticketing_v.Identity.Service
use polyglot_ticketing_v.Identity.Service.{
  IdentityAuthContext, SignInRequest, valid, to_validation_result, validate_sign_in_request,
  try_sign_in,
}
use polyglot_ticketing_v.Boundary.{identity_writer, to_wire, connect}

-- The reply to an error of Identity with one item and status UNAUTHENTICATED.
catch-to_wire :
    (json : Json) (item : ErrorItem) (fallback : Option ErrorItem)
    → RoundTrips json (details (structured GrpcStatus.unauthenticated item))
    → catch (
        throw_gateway_grpc_error json
          (to_wire json (structured GrpcStatus.unauthenticated item))
          fallback)
      ≡ record { status = 401; body = error_response (Errors.item_value item ∷ []) }
unfolding http_status_from_grpc_code details
catch-to_wire json item fallback trip =
    catch-throw_gateway_grpc_error json identity_writer (pos 16) item [] fallback trip

map_better_auth_sign_in_error_of_credentials :
    (e : Value)
    → body_code e ≡ some "INVALID_EMAIL_OR_PASSWORD"
    → map_better_auth_sign_in_error e
      ≡ structured GrpcStatus.unauthenticated create_invalid_credentials_error
unfolding map_better_auth_sign_in_error
map_better_auth_sign_in_error_of_credentials e code = rw (code, first_some, is_code)

module _ (grpc : MetadataApi) (web : HeadersApi) (json : Json)
    (context : IdentityAuthContext grpc web) (headers : RequestHeaders) (request : SignInRequest)
    (m : grpc.Metadata) where
  service_refused :
      (e : Value)
      → context.validate_sign_in request ≡ valid
      → context.sign_in_email request (create_auth_request_headers grpc web m) ≡ err e
      → Service.sign_in grpc web context request m ≡ err (map_better_auth_sign_in_error e)
  unfolding Service.sign_in try_sign_in to_validation_result validate_sign_in_request
  service_refused e checked refused = rw (checked, refused)

  -- Where Better Auth refuses a valid sign-in for its email or password, the client is told so with
  -- status 401, and gets the item for invalid credentials alone.
  pub sign_in_refused_reply :
      (e : Value)
      → create_auth_request_metadata grpc headers ≡ ok m
      → context.validate_sign_in request ≡ valid
      → context.sign_in_email request (create_auth_request_headers grpc web m) ≡ err e
      → body_code e ≡ some "INVALID_EMAIL_OR_PASSWORD"
      → RoundTrips json
          (details (structured GrpcStatus.unauthenticated create_invalid_credentials_error))
      → (t : Thrown) × (sign_in grpc json (connect grpc web json context) request headers ≡ err t)
        × (catch t ≡ record {
          status = 401;
          body = error_response (Errors.item_value create_invalid_credentials_error ∷ []);
        })
  unfolding sign_in
  sign_in_refused_reply e made checked refused code trip = (
    throw_gateway_grpc_error json
        (to_wire json (structured GrpcStatus.unauthenticated create_invalid_credentials_error))
        (some (invalid_item "Signin data is invalid.")),
    rw (
      made,
      service_refused e checked refused,
      map_better_auth_sign_in_error_of_credentials e code,
    ),
    catch-to_wire json create_invalid_credentials_error
        (some (invalid_item "Signin data is invalid.")) trip,
  )
