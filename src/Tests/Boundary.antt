-- ===== src/Tests/Boundary.antt =====
-- Examples of the gateway and the identity service together.
use polyglot_ticketing_v.Base.{
  String, ◌≡◌, refl, none, some, List, [], ◌∷◌, ok, err, str_eq, contains, if◌then◌else◌, arith,
}
use polyglot_ticketing_v.Base.Text.{trim}
use polyglot_ticketing_v.Value.{Value, obj, end, entry, str}
use polyglot_ticketing_v.Contracts.GrpcStatus
use polyglot_ticketing_v.Platform.Metadata.{MetadataValue}
use polyglot_ticketing_v.Gateway.Identity.Headers.{RequestHeaders, absent, one, single}
use polyglot_ticketing_v.Gateway.Identity.Metadata.{
  create_auth_request_metadata, create_session_request_metadata, forwarded_auth_headers,
}
use polyglot_ticketing_v.Identity.RequestHeaders.{
  create_auth_request_headers, create_session_request_headers,
}
use polyglot_ticketing_v.Identity.Service.{IdentityAuthContext, SignInRequest, valid}
use polyglot_ticketing_v.Boundary.AuthHeaders.{sent, sign_in_headers_arrive}
use polyglot_ticketing_v.Boundary.SessionHeader.{session_pair, session_cookie_arrives}
use polyglot_ticketing_v.Tests.Samples.{metadata, web_headers}
use polyglot_ticketing_v.Tests.Samples.Services.{with_header, with_header-AllLegal}

abbrev wrong_password : Value
wrong_password = obj (entry "body" (obj (entry "code" (str "INVALID_EMAIL_OR_PASSWORD") end)) end)

-- Better Auth that knows nobody.
abbrev context : IdentityAuthContext metadata web_headers
context = record {
  validate_sign_up = λ request. valid;
  validate_sign_in = λ request. valid;
  sign_up_email = λ request. err wrong_password;
  sign_in_email = λ request headers. err wrong_password;
  sign_out = λ headers. ok tt;
  get_session = λ headers. ok none;
  verify_email = λ token. ok tt;
  get_session_expiry = λ token user_id. ok none;
}

abbrev no_headers : RequestHeaders
no_headers name = absent

abbrev no_metadata : String → List MetadataValue
no_metadata key = []

abbrev request : SignInRequest
request = record { email = "ada@example.com"; password = "wrong" }

-- A browser's request with an origin and two cookies.
abbrev browser : RequestHeaders
browser name =
    if str_eq name "origin"
    then one "http://localhost:3001"
    else if str_eq name "cookie"
    then one "theme=dark; better-auth.session_token=abc"
    else absent

abbrev from_origin : RequestHeaders
from_origin = with_header "origin" "http://localhost:3001"

sign_in_headers_arrive_example :
    (m : metadata.Metadata) × (create_auth_request_metadata metadata from_origin ≡ ok m)
    × ((k : String)
        → web_headers.get (create_auth_request_headers metadata web_headers m) k
          ≡ sent metadata web_headers
              (contains forwarded_auth_headers k)
              (single (from_origin k))
              none)
sign_in_headers_arrive_example =
    sign_in_headers_arrive metadata web_headers from_origin
      (with_header-AllLegal "origin" "http://localhost:3001" refl)

session_cookie_arrives_example :
    (m : metadata.Metadata) × (create_session_request_metadata metadata browser ≡ ok m)
    × ((k : String)
        → web_headers.get (create_session_request_headers metadata web_headers m) k
          ≡ (if str_eq "cookie" k then some (trim (session_pair "abc")) else none))
unfolding trim
session_cookie_arrives_example =
    session_cookie_arrives metadata web_headers browser
      (("theme", "dark") ∷ ("better-auth.session_token", "abc") ∷ []) "abc" (ground arith) refl refl
      refl
