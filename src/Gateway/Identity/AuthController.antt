-- ===== src/Gateway/Identity/AuthController.antt =====
-- The routes of apps/api-gateway/src/identity/auth.controller.ts. A route that sets a cookie gives
-- the cookie beside its result: the header stays set where the handler throws later.
pub mod SignOut
use polyglot_ticketing_v.Base.{
  ℤ, pos, String, Bool, true, Option, none, some, Result, ok, err, ◌>>=◌, map_err,
}
use polyglot_ticketing_v.Value.Json.{Json}
use polyglot_ticketing_v.Platform.Metadata.{MetadataApi}
use polyglot_ticketing_v.Platform.Dates.{DateApi}
use polyglot_ticketing_v.Gateway.Errors.{Thrown, plain}
use polyglot_ticketing_v.Gateway.Dates.{to_date, iso_string}
use polyglot_ticketing_v.Gateway.Identity.Headers.{RequestHeaders}
use polyglot_ticketing_v.Gateway.Identity.Metadata.{session_cookie_name}
use polyglot_ticketing_v.Gateway.Identity.AuthService.{
  AuthenticatedUser, IdentityGrpcService, sign_in, sign_out, sign_up, current_user, verify_email,
}
use polyglot_ticketing_v.Identity.Service.{
  SignInRequest, SignInResponse, SignUpRequest, SignUpResponse,
}

-- `response.cookie(name, value, options)`; the value is sent as it is.
pub record Cookie : Type 0 where
  pub name : String
  pub value : String
  pub expires : ℤ
  pub http_only : Bool
  pub path : String
  pub same_site : String
  pub secure : Bool

pub record SignInBody : Type 0 where
  pub session_expires_at : String
  pub user : AuthenticatedUser

-- The cookie of `signIn` and `signOut`; `production` is `NODE_ENV === 'production'`.
abbrev pub session_cookie : Bool → String → ℤ → Cookie
session_cookie production value expires = record {
  name = session_cookie_name;
  value = value;
  expires = expires;
  http_only = true;
  path = "/";
  same_site = "lax";
  secure = production;
}

abbrev pub user_of : SignInResponse → AuthenticatedUser
user_of result = record {
  email = result.email;
  email_verified = result.email_verified;
  id = result.user_id;
  name = result.name;
}

module _ (grpc : MetadataApi) (json : Json) (dates : DateApi) (identity : IdentityGrpcService grpc)
    (production : Bool) where
  -- What follows the service's answer in `signIn`.
  abbrev pub finish_sign_in :
      Result Thrown SignInResponse → Option Cookie × Result Thrown SignInBody
  finish_sign_in (err e) = (none, err e)
  finish_sign_in (ok result) =
      let expires_at = to_date dates result.session_expires_at in
      (
        some (session_cookie production result.session_token expires_at),
        do
          text ← map_err plain (iso_string dates expires_at)
          ok (record { session_expires_at = text; user = user_of result }),
      )

  unfoldable pub post_sign_in :
      SignInRequest → RequestHeaders → Option Cookie × Result Thrown SignInBody
  unfolding sign_in to_date iso_string
  post_sign_in dto headers = finish_sign_in (sign_in grpc json identity dto headers)

  abbrev pub finish_sign_out : Result Thrown (Unit {0}) → Option Cookie × Result Thrown (Unit {0})
  finish_sign_out (err e) = (none, err e)
  finish_sign_out (ok done) = (some (session_cookie production "" (pos 0)), ok tt)

  unfoldable pub post_sign_out : RequestHeaders → Option Cookie × Result Thrown (Unit {0})
  unfolding sign_out
  post_sign_out headers = finish_sign_out (sign_out grpc json identity headers)

  unfoldable pub post_sign_up : SignUpRequest → Result Thrown SignUpResponse
  unfolding sign_up
  post_sign_up dto = sign_up grpc json identity dto

  unfoldable pub get_current_user : RequestHeaders → Result Thrown AuthenticatedUser
  unfolding current_user
  get_current_user headers = current_user grpc json identity headers

  unfoldable pub get_verify_email : String → Result Thrown Bool
  unfolding verify_email
  get_verify_email token = verify_email grpc json identity token
