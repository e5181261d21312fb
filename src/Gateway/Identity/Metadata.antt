-- ===== src/Gateway/Identity/Metadata.antt =====
-- What crosses from HTTP to gRPC: apps/api-gateway/src/identity/metadata/auth-request-metadata.ts
-- and session-request-metadata.ts.
pub mod Forwarding
use polyglot_ticketing_v.Base.{String, Option, none, some, List, [], ◌∷◌, Result, ok, err, ◌>>=◌}
use polyglot_ticketing_v.Base.Text.{append}
use polyglot_ticketing_v.Value.{Value}
use polyglot_ticketing_v.Platform.Metadata.{MetadataApi, try_set}
use polyglot_ticketing_v.Gateway.Identity.Headers.{RequestHeaders, HeaderValue, absent, one, many}
use polyglot_ticketing_v.Gateway.Identity.Cookie.{get_cookie_value}

abbrev pub forwarded_auth_headers : List String
forwarded_auth_headers =
    "origin" ∷ "referer" ∷ "sec-fetch-dest" ∷ "sec-fetch-mode" ∷ "sec-fetch-site" ∷ "user-agent"
    ∷ []

abbrev pub session_cookie_name : String
session_cookie_name = "better-auth.session_token"

module _ (api : MetadataApi) where
  open api use {Metadata, empty}

  -- One round of the loop: only a header that is a single text is copied.
  unfoldable pub forward_header : String → HeaderValue → Metadata → Result Value Metadata
  unfolding try_set
  forward_header name (one v) m = try_set api m name v
  forward_header name absent m = ok m
  forward_header name (many vs) m = ok m

  unfoldable pub forward_headers : RequestHeaders → List String → Metadata → Result Value Metadata
  unfolding forward_header
  forward_headers headers [] m = ok m
  forward_headers headers (name ∷ names) m =
      forward_header name (headers name) m >>= forward_headers headers names

  unfoldable pub create_auth_request_metadata : RequestHeaders → Result Value Metadata
  unfolding forward_headers
  create_auth_request_metadata headers = forward_headers headers forwarded_auth_headers empty

  -- `metadata.set('cookie', ...)` where the request has a session cookie.
  abbrev pub set_cookie : Option String → Result Value Metadata
  set_cookie none = ok empty
  set_cookie (some v) = try_set api empty "cookie" (append session_cookie_name (append "=" v))

  unfoldable pub create_session_request_metadata : RequestHeaders → Result Value Metadata
  unfolding get_cookie_value try_set
  create_session_request_metadata headers =
      set_cookie (get_cookie_value (headers "cookie") session_cookie_name)
