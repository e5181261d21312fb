-- ===== src/Identity/Service.antt =====
-- apps/identity/src/identity/identity.service.ts. Better Auth, the session table and protovalidate
-- are third-party: an interface of functions that return or throw. The children have the theorems.
pub mod Outcomes
use polyglot_ticketing_v.Base.{
  ℕ, ℤ, String, Bool, true, Option, none, some, List, [], ◌∷◌, map, Result, ok, err, ◌>>=◌, ◌>>◌,
  map_err, str_eq, if◌then◌else◌,
}
use polyglot_ticketing_v.Value.{Value, obj, str, entry, end}
use polyglot_ticketing_v.Contracts.ErrorItem.{ErrorItem}
use polyglot_ticketing_v.Contracts.GrpcStatus
use polyglot_ticketing_v.Platform.Metadata.{MetadataApi}
use polyglot_ticketing_v.Platform.WebHeaders.{HeadersApi}
use polyglot_ticketing_v.Platform.Dates.{Timestamp}
use polyglot_ticketing_v.Identity.Errors.{
  StructuredGrpcError, create_signup_validation_internal_error,
  create_signin_validation_internal_error, create_current_user_internal_error,
  create_current_user_unauthenticated_error,
}
use polyglot_ticketing_v.Identity.Mappers.{
  structured, map_protovalidate_violation, map_better_auth_sign_out_error,
}
use polyglot_ticketing_v.Identity.Mappers.Signup.{map_better_auth_error}
use polyglot_ticketing_v.Identity.Mappers.Signin.{map_better_auth_sign_in_error}
use polyglot_ticketing_v.Identity.Mappers.EmailVerification.{map_email_verification_error}
use polyglot_ticketing_v.Identity.SessionCookie.{extract_session_cookie_value}
use polyglot_ticketing_v.Identity.RequestHeaders.{
  create_auth_request_headers, create_session_request_headers,
}
use polyglot_ticketing_v.Identity.Timestamp.{to_timestamp}

pub record SignUpRequest : Type 0 where
  pub name : String
  pub email : String
  pub password : String

pub record SignUpResponse : Type 0 where
  pub user_id : String
  pub email : String

pub record SignInRequest : Type 0 where
  pub email : String
  pub password : String

pub record SignInResponse : Type 0 where
  pub user_id : String
  pub name : String
  pub email : String
  pub email_verified : Bool
  pub session_token : String
  pub session_expires_at : Timestamp

pub record CurrentUserResponse : Type 0 where
  pub user_id : String
  pub name : String
  pub email : String
  pub email_verified : Bool

-- A user as Better Auth returns it.
pub record User : Type 0 where
  pub id : String
  pub name : String
  pub email : String
  pub email_verified : Bool

-- What protovalidate says of a request; a violation is the path of its field.
pub data Validation : Type 0 where
  valid : Validation
  invalid : List String → Validation
  error : Validation

-- The result of `validateSignUpRequest` and `validateSignInRequest`.
pub data ValidationResult : Type 0 where
  accepted : ValidationResult
  rejected : List ErrorItem → ValidationResult
  failed : ValidationResult

unfoldable pub to_validation_result : Validation → ValidationResult
to_validation_result valid = accepted
to_validation_result (invalid violations) = rejected (map map_protovalidate_violation violations)
to_validation_result error = failed

-- The body of both validation steps: `invalid` and `error` throw.
abbrev pub require_valid : ErrorItem → ValidationResult → Result StructuredGrpcError (Unit {0})
require_valid item accepted = ok tt
require_valid item (rejected errors) =
    err (record { code = GrpcStatus.invalid_argument; errors = errors })
require_valid item failed = err (structured GrpcStatus.internal item)

-- `new Error(message)`
abbrev pub new_error : String → Value
new_error message = obj (entry "message" (str message) end)

-- `if (!value) throw error` for an optional value.
abbrev pub require {ℓ} : {A : Type ℓ} → Value → Option A → Result Value A
require e none = err e
require e (some a) = ok a

-- `if (!sessionCookieValue)`: the empty text counts as missing.
abbrev pub require_text : Value → Option String → Result Value String
require_text e none = err e
require_text e (some s) = if str_eq s "" then err e else ok s

module _ (grpc : MetadataApi) (web : HeadersApi) where
  open grpc use {Metadata}
  open web use {Headers}

  -- The result of `signInEmail` with `returnHeaders`.
  pub record SignInResult : Type 0 where
    pub headers : Headers
    pub token : String
    pub user : User

  pub record IdentityAuthContext : Type 0 where
    pub validate_sign_up : SignUpRequest → Validation
    pub validate_sign_in : SignInRequest → Validation
    pub sign_up_email : SignUpRequest → Result Value User
    pub sign_in_email : SignInRequest → Headers → Result Value SignInResult
    pub sign_out : Headers → Result Value (Unit {0})
    pub get_session : Headers → Result Value (Option User)
    pub verify_email : String → Result Value (Unit {0})
    pub get_session_expiry : String → String → Result Value (Option ℤ)

module _ (grpc : MetadataApi) (web : HeadersApi) (context : IdentityAuthContext grpc web) where
  open grpc use {Metadata}
  open context use {
    validate_sign_up, validate_sign_in, sign_up_email, sign_in_email, sign_out as api_sign_out,
    get_session, verify_email as api_verify_email, get_session_expiry,
  }

  unfoldable pub validate_sign_up_request : SignUpRequest → ValidationResult
  unfolding to_validation_result
  validate_sign_up_request request = to_validation_result (validate_sign_up request)

  unfoldable pub validate_sign_in_request : SignInRequest → ValidationResult
  unfolding to_validation_result
  validate_sign_in_request request = to_validation_result (validate_sign_in request)

  unfoldable pub sign_up : SignUpRequest → Result StructuredGrpcError SignUpResponse
  unfolding validate_sign_up_request
  sign_up request = do
    require_valid create_signup_validation_internal_error (validate_sign_up_request request)
    user ← map_err map_better_auth_error (sign_up_email request)
    ok (record { email = user.email; user_id = user.id })

  -- The body of the `try` of `signIn`.
  unfoldable pub try_sign_in : SignInRequest → Metadata → Result Value SignInResponse
  unfolding create_auth_request_headers extract_session_cookie_value to_timestamp
  try_sign_in request metadata = do
    result ← sign_in_email request (create_auth_request_headers grpc web metadata)
    token ←
        require_text (new_error "Better Auth did not return the created session cookie.")
          (extract_session_cookie_value web result.headers)
    found ← get_session_expiry result.token result.user.id
    expires ← require (new_error "Better Auth did not return the created session.") found
    ok (record {
      email = result.user.email;
      email_verified = result.user.email_verified;
      name = result.user.name;
      session_expires_at = to_timestamp expires;
      session_token = token;
      user_id = result.user.id;
    })

  unfoldable pub sign_in : SignInRequest → Metadata → Result StructuredGrpcError SignInResponse
  unfolding validate_sign_in_request try_sign_in
  sign_in request metadata = do
    require_valid create_signin_validation_internal_error (validate_sign_in_request request)
    map_err map_better_auth_sign_in_error (try_sign_in request metadata)

  unfoldable pub sign_out : Metadata → Result StructuredGrpcError (Unit {0})
  unfolding create_session_request_headers map_better_auth_sign_out_error
  sign_out metadata =
      map_err (λ e. map_better_auth_sign_out_error)
        (api_sign_out (create_session_request_headers grpc web metadata))

  abbrev pub require_session : Option User → Result StructuredGrpcError User
  require_session none =
      err (structured GrpcStatus.unauthenticated create_current_user_unauthenticated_error)
  require_session (some user) = ok user

  unfoldable pub current_user : Metadata → Result StructuredGrpcError CurrentUserResponse
  unfolding create_session_request_headers
  current_user metadata = do
    session ←
        map_err (λ e. structured GrpcStatus.internal create_current_user_internal_error)
          (get_session (create_session_request_headers grpc web metadata))
    user ← require_session session
    ok (record {
      email = user.email;
      email_verified = user.email_verified;
      name = user.name;
      user_id = user.id;
    })

  -- The response's `verified` is always true.
  unfoldable pub verify_email : String → Result StructuredGrpcError Bool
  verify_email token = do map_err map_email_verification_error (api_verify_email token); ok true
