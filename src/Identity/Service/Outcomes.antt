-- ===== src/Identity/Service/Outcomes.antt =====
-- How the calls of apps/identity/src/identity/identity.service.ts end.
use polyglot_ticketing_v.Base.{
  ℤ, String, false, Option, none, some, Result, ok, err, ◌>>=◌, map_err, ◌≡◌, ◌≢◌, ◌↔◌, refl, ap,
  str_eq, arith,
}
use polyglot_ticketing_v.Value.{Value}
use polyglot_ticketing_v.Contracts.GrpcStatus
use polyglot_ticketing_v.Platform.Metadata.{MetadataApi}
use polyglot_ticketing_v.Platform.WebHeaders.{HeadersApi}
use polyglot_ticketing_v.Identity.Errors.{
  StructuredGrpcError, create_current_user_unauthenticated_error,
  create_current_user_internal_error,
}
use polyglot_ticketing_v.Identity.Mappers.{structured}
use polyglot_ticketing_v.Identity.SessionCookie.{extract_session_cookie_value}
use polyglot_ticketing_v.Identity.RequestHeaders.{
  create_auth_request_headers, create_session_request_headers,
}
use polyglot_ticketing_v.Identity.Timestamp.{to_timestamp}
use polyglot_ticketing_v.Identity.Service.{
  valid, SignInRequest, SignInResponse, SignInResult, IdentityAuthContext, User,
  CurrentUserResponse, ValidationResult, accepted, rejected, failed, new_error, current_user,
  require_session,
}
use polyglot_ticketing_v.Identity.Service

module _ (grpc : MetadataApi) (web : HeadersApi) (context : IdentityAuthContext grpc web) where
  open grpc use {Metadata}

  -- All that stands behind the response of a sign-in.
  pub record SignedIn (request : SignInRequest) (metadata : Metadata) (response : SignInResponse)
      : Type 0 where
    pub result : SignInResult grpc web
    pub token : String
    pub expires : ℤ
    pub checked : context.validate_sign_in request ≡ valid
    pub called :
        context.sign_in_email request (create_auth_request_headers grpc web metadata) ≡ ok result
    pub cookie : extract_session_cookie_value web (result.headers) ≡ some token
    pub not_empty : str_eq token "" ≡ false
    pub stored : context.get_session_expiry result.token result.user.id ≡ ok (some expires)
    pub responds :
        record {
          email = result.user.email;
          email_verified = result.user.email_verified;
          name = result.user.name;
          session_expires_at = to_timestamp expires;
          session_token = token;
          user_id = result.user.id;
        }
        ≡ response

  -- The error for a caller without a session.
  abbrev pub unauthenticated_error : StructuredGrpcError
  unauthenticated_error =
      structured GrpcStatus.unauthenticated create_current_user_unauthenticated_error

  -- The rest of `currentUser` on what Better Auth returned.
  abbrev respond : Result Value (Option User) → Result StructuredGrpcError CurrentUserResponse
  respond found = do
    session ← map_err (λ e. structured GrpcStatus.internal create_current_user_internal_error) found
    user ← require_session grpc web context session
    ok (record {
      email = user.email;
      email_verified = user.email_verified;
      name = user.name;
      user_id = user.id;
    })

  internal-ne-unauthenticated :
      structured GrpcStatus.internal create_current_user_internal_error ≢ unauthenticated_error
  internal-ne-unauthenticated e = let codes = ap (λ x. x.code) e in absurd (ground (arith, codes))

  err-injective :
      {e f : StructuredGrpcError}
      → ◌≡◌ {A = Result StructuredGrpcError CurrentUserResponse} (err e) (err f)
      → e ≡ f
  err-injective h = cc

  respond-unauthenticated :
      (found : Result Value (Option User))
      → respond found ≡ err unauthenticated_error
      → found ≡ ok none
  respond-unauthenticated (err e) h = absurd (internal-ne-unauthenticated (err-injective h))
  respond-unauthenticated (ok none) h = refl
  respond-unauthenticated (ok (some user)) h = cc

  -- `currentUser` answers that authentication is required exactly where Better Auth finds no
  -- session for the request's cookie; where looking for the session fails it does not.
  pub current_user-unauthenticated_iff :
      (metadata : Metadata)
      → current_user grpc web context metadata ≡ err unauthenticated_error
        ↔ context.get_session (create_session_request_headers grpc web metadata) ≡ ok none
  unfolding current_user
  current_user-unauthenticated_iff metadata = (λ h. respond-unauthenticated _ h, λ h. ap respond h)
