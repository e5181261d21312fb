-- ===== src/Boundary/SignInCookie.antt =====
-- The session that Better Auth creates, and the cookie that the browser gets.
use polyglot_ticketing_v.Base.{
  ℕ, pos, ◌≤◌, String, ◌≡◌, ap, Bool, true, false, some, ok, str_eq, if◌then◌else◌,
}
use polyglot_ticketing_v.Value.{Value}
use polyglot_ticketing_v.Value.Json.{Json}
use polyglot_ticketing_v.Platform.Metadata.{MetadataApi}
use polyglot_ticketing_v.Platform.WebHeaders.{HeadersApi}
use polyglot_ticketing_v.Platform.Dates.{DateApi, last_time}
use polyglot_ticketing_v.Gateway.Dates.RoundTrip.{to_date-to_timestamp}
use polyglot_ticketing_v.Gateway.Identity.Headers.{RequestHeaders}
use polyglot_ticketing_v.Gateway.Identity.Metadata.{create_auth_request_metadata}
use polyglot_ticketing_v.Gateway.Identity.AuthService.{sign_in}
use polyglot_ticketing_v.Gateway.Identity.AuthController.{session_cookie, post_sign_in}
use polyglot_ticketing_v.Identity.SessionCookie.{extract_session_cookie_value}
use polyglot_ticketing_v.Identity.RequestHeaders.{create_auth_request_headers}
use polyglot_ticketing_v.Identity.Timestamp.{to_timestamp}
use polyglot_ticketing_v.Identity.Service
use polyglot_ticketing_v.Identity.Service.{
  IdentityAuthContext, SignInRequest, SignInResponse, SignInResult, valid, to_validation_result,
  validate_sign_in_request, try_sign_in, require_text,
}
use polyglot_ticketing_v.Boundary.{connect}

require_text-some : (e : Value) (s : String) → str_eq s "" ≡ false → require_text e (some s) ≡ ok s
require_text-some e s full = rw (full, if◌then◌else◌)

module _ (grpc : MetadataApi) (web : HeadersApi) (json : Json)
    (context : IdentityAuthContext grpc web) (headers : RequestHeaders) (request : SignInRequest)
    (m : grpc.Metadata) (result : SignInResult grpc web) (token : String) (ms : ℕ) where
  -- What Identity answers for the result of Better Auth.
  abbrev response : SignInResponse
  response = record {
    email = result.user.email;
    email_verified = result.user.email_verified;
    name = result.user.name;
    session_expires_at = to_timestamp (pos ms);
    session_token = token;
    user_id = result.user.id;
  }

  service_answers :
      context.validate_sign_in request ≡ valid
      → context.sign_in_email request (create_auth_request_headers grpc web m) ≡ ok result
      → extract_session_cookie_value web result.headers ≡ some token
      → str_eq token "" ≡ false
      → context.get_session_expiry result.token result.user.id ≡ ok (some (pos ms))
      → Service.sign_in grpc web context request m ≡ ok response
  unfolding Service.sign_in try_sign_in to_validation_result validate_sign_in_request
  service_answers checked created found full stored =
      rw (checked, created, found, require_text-some _ token full, stored)

  -- After a sign-in that Better Auth accepts, the browser gets the session cookie with the value
  -- that Better Auth set, and it expires at the time that the session table has, to the
  -- millisecond; it is for HTTP alone, for every path, lax, and secure in production. The expiry is
  -- from 1970 on and in the range of a `Date`.
  pub sign_in_sets_cookie :
      (dates : DateApi) (production : Bool)
      → create_auth_request_metadata grpc headers ≡ ok m
      → context.validate_sign_in request ≡ valid
      → context.sign_in_email request (create_auth_request_headers grpc web m) ≡ ok result
      → extract_session_cookie_value web result.headers ≡ some token
      → str_eq token "" ≡ false
      → context.get_session_expiry result.token result.user.id ≡ ok (some (pos ms))
      → ms ≤ last_time
      → (post_sign_in grpc json dates (connect grpc web json context) production request headers).0
        ≡ some (record {
          name = "better-auth.session_token";
          value = token;
          expires = pos ms;
          http_only = true;
          path = "/";
          same_site = "lax";
          secure = production;
        })
  unfolding post_sign_in sign_in
  sign_in_sets_cookie dates production made checked created found full stored in_range =
      rw (made, service_answers checked created found full stored)
        (ap (λ t. some (session_cookie production token t))
          (to_date-to_timestamp dates ms in_range))
