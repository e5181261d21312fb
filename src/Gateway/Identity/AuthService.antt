-- ===== src/Gateway/Identity/AuthService.antt =====
-- apps/api-gateway/src/identity/auth.service.ts: the client of the identity service. The gRPC
-- client is third-party: a record of functions that return a response or throw.
use polyglot_ticketing_v.Base.{String, Bool, none, some, Option, Result, ok, ◌>>=◌, map_err}
use polyglot_ticketing_v.Value.{Value}
use polyglot_ticketing_v.Value.Json.{Json}
use polyglot_ticketing_v.Contracts.ErrorCode
use polyglot_ticketing_v.Platform.Metadata.{MetadataApi}
use polyglot_ticketing_v.Gateway.Errors.{
  ErrorItem, Thrown, to_public_error_code, throw_gateway_grpc_error,
}
use polyglot_ticketing_v.Gateway.Identity.Headers.{RequestHeaders}
use polyglot_ticketing_v.Gateway.Identity.Metadata.{
  create_auth_request_metadata, create_session_request_metadata,
}
use polyglot_ticketing_v.Identity.Service.{
  SignUpRequest, SignUpResponse, SignInRequest, SignInResponse, CurrentUserResponse,
}

-- The user of a session, `CurrentUserResponse['user']`.
pub record AuthenticatedUser : Type 0 where
  pub id : String
  pub name : String
  pub email : String
  pub email_verified : Bool

unfoldable pub to_current_user_response : CurrentUserResponse → AuthenticatedUser
to_current_user_response response = record {
  email = response.email;
  email_verified = response.email_verified;
  id = response.user_id;
  name = response.name;
}

abbrev pub invalid_item : String → ErrorItem
invalid_item message = record {
  code = to_public_error_code ErrorCode.invalid_argument;
  message = message;
  field = none;
}

module _ (grpc : MetadataApi) where
  open grpc use {Metadata}

  pub record IdentityGrpcService : Type 0 where
    pub sign_up : SignUpRequest → Result Value SignUpResponse
    pub sign_in : SignInRequest → Metadata → Result Value SignInResponse
    pub sign_out : Metadata → Result Value (Unit {0})
    pub current_user : Metadata → Result Value CurrentUserResponse
    pub verify_email : String → Result Value Bool

module _ (grpc : MetadataApi) (json : Json) (identity : IdentityGrpcService grpc) where
  -- `try { m } catch (error) { throwGatewayGrpcError(error, item); }`
  abbrev pub guarded {ℓ} : {A : Type ℓ} → Option ErrorItem → Result Value A → Result Thrown A
  guarded item m = map_err (λ e. throw_gateway_grpc_error json e item) m

  unfoldable pub sign_up : SignUpRequest → Result Thrown SignUpResponse
  sign_up request =
      guarded (some (invalid_item "Signup data is invalid.")) (identity.sign_up request)

  unfoldable pub sign_in : SignInRequest → RequestHeaders → Result Thrown SignInResponse
  unfolding create_auth_request_metadata
  sign_in request headers =
      guarded (some (invalid_item "Signin data is invalid."))
        do metadata ← create_auth_request_metadata grpc headers; identity.sign_in request metadata

  unfoldable pub sign_out : RequestHeaders → Result Thrown (Unit {0})
  unfolding create_session_request_metadata
  sign_out headers =
      guarded none
        do metadata ← create_session_request_metadata grpc headers; identity.sign_out metadata

  unfoldable pub current_user : RequestHeaders → Result Thrown AuthenticatedUser
  unfolding create_session_request_metadata to_current_user_response
  current_user headers = guarded none do
    metadata ← create_session_request_metadata grpc headers
    response ← identity.current_user metadata
    ok (to_current_user_response response)

  unfoldable pub verify_email : String → Result Thrown Bool
  verify_email token = guarded none (identity.verify_email token)
