-- ===== src/Tests/Identity.antt =====
-- Examples of the identity service.
use polyglot_ticketing_v.Base.{
  ℕ, pos, String, true, ◌≡◌, refl, none, some, List, [], ◌∷◌, ok, err, arith,
}
use polyglot_ticketing_v.Value.{str, Value, obj, end, entry, num}
use polyglot_ticketing_v.Platform.Metadata.{MetadataValue}
use polyglot_ticketing_v.Identity.SessionCookie.{extract_session_cookie_value}
use polyglot_ticketing_v.Identity.Timestamp.{to_timestamp}
use polyglot_ticketing_v.Identity.Service.{
  IdentityAuthContext, SignInRequest, SignInResponse, SignInResult, User, valid,
}
use polyglot_ticketing_v.Gateway.Identity.Headers.{RequestHeaders, absent}
use polyglot_ticketing_v.Gateway.Identity.Metadata.{create_auth_request_metadata}
use polyglot_ticketing_v.Gateway.Identity.AuthController.{post_sign_in, session_cookie}
use polyglot_ticketing_v.Boundary.{connect}
use polyglot_ticketing_v.Boundary.SignInCookie.{sign_in_sets_cookie}
use polyglot_ticketing_v.Tests.Samples.Services.{json_of}
use polyglot_ticketing_v.Tests.Samples.{dates, metadata, web_headers}

-- What Better Auth throws with a status.
abbrev failed : ℕ → Value
failed status = obj (entry "statusCode" (num (pos status)) end)

abbrev ada : User
ada = record { id = "u1"; name = "Ada"; email = "ada@example.com"; email_verified = true }

abbrev signed_in : SignInResult metadata web_headers
signed_in = record {
  headers = (λ name. none, some ("better-auth.session_token=abc; Path=/" ∷ []));
  token = "db-token";
  user = ada;
}

-- Better Auth with one user, who is not signed in.
abbrev context : IdentityAuthContext metadata web_headers
context = record {
  validate_sign_up = λ request. valid;
  validate_sign_in = λ request. valid;
  sign_up_email = λ request. err (failed 409);
  sign_in_email = λ request headers. ok signed_in;
  sign_out = λ headers. ok tt;
  get_session = λ headers. ok none;
  verify_email = λ token. ok tt;
  get_session_expiry = λ token user_id. ok (some (pos 900_000));
}

abbrev request : SignInRequest
request = record { email = "ada@example.com"; password = "correct horse" }

abbrev no_metadata : String → List MetadataValue
no_metadata key = []

abbrev response : SignInResponse
response = record {
  user_id = "u1";
  name = "Ada";
  email = "ada@example.com";
  email_verified = true;
  session_token = "abc";
  session_expires_at = to_timestamp (pos 900_000);
}

abbrev no_headers : RequestHeaders
no_headers name = absent

sign_in_sets_cookie_example :
    (post_sign_in metadata
      (json_of (str ""))
      dates
      (connect metadata web_headers (json_of (str "")) context)
      true
      request
      no_headers).0
    ≡ some (session_cookie true "abc" (pos 900_000))
unfolding create_auth_request_metadata extract_session_cookie_value
sign_in_sets_cookie_example =
    sign_in_sets_cookie metadata web_headers (json_of (str "")) context no_headers request
      no_metadata signed_in "abc" 900_000 dates true refl refl refl refl refl refl (ground arith)
