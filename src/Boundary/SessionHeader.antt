-- ===== src/Boundary/SessionHeader.antt =====
-- Which cookie of a browser's request reaches Better Auth, through both services.
use polyglot_ticketing_v.Base.{
  String, ◌≡◌, true, none, some, List, ok, All, lookup, str_eq, if◌then◌else◌,
}
use polyglot_ticketing_v.Base.Text.{append}
use polyglot_ticketing_v.Platform.Metadata.{MetadataApi, try_set}
use polyglot_ticketing_v.Platform.WebHeaders.{HeadersApi}
use polyglot_ticketing_v.Gateway.Identity.Headers.{RequestHeaders, one}
use polyglot_ticketing_v.Gateway.Identity.Cookie.{render, IsClean}
use polyglot_ticketing_v.Gateway.Identity.Cookie.Rendering.{get_cookie_value-render}
use polyglot_ticketing_v.Gateway.Identity.Metadata.{
  create_session_request_metadata, set_cookie, session_cookie_name,
}
use polyglot_ticketing_v.Identity.RequestHeaders.{create_session_request_headers}

abbrev pub session_pair : String → String
session_pair v = append session_cookie_name (append "=" v)

module _ (grpc : MetadataApi) (web : HeadersApi) where
  set_cookie_lem :
      (v : String)
      → grpc.is_legal (session_pair v) ≡ true
      → set_cookie grpc (some v) ≡ ok (grpc.set grpc.empty "cookie" (session_pair v))
  unfolding try_set
  set_cookie_lem v legal = rw (legal, if◌then◌else◌)

  create_session_request_headers_lem :
      (v k : String)
      → web.get
          (create_session_request_headers grpc web (grpc.set grpc.empty "cookie" (session_pair v)))
          k
        ≡ (if str_eq "cookie" k then some (web.normalize (session_pair v)) else none)
  unfolding create_session_request_headers
  create_session_request_headers_lem v k =
      rw (grpc.get-set grpc.empty "cookie" (session_pair v) "cookie")
        (rw (web.get-set web.empty "cookie" (session_pair v) k, web.get-empty k))

  -- Of the cookies that a browser sends, Better Auth gets the session cookie alone, normalised, and
  -- no other header of the request. The cookies are written as a browser writes them, the session
  -- cookie is among them, and it can be a metadata value.
  pub session_cookie_arrives :
      (headers : RequestHeaders) (cookies : List (String × String)) (v : String)
      → All IsClean cookies
      → headers "cookie" ≡ one (render cookies)
      → lookup session_cookie_name cookies ≡ some v
      → grpc.is_legal (session_pair v) ≡ true
      → (m : grpc.Metadata) × (create_session_request_metadata grpc headers ≡ ok m)
        × ((k : String)
            → web.get (create_session_request_headers grpc web m) k
              ≡ (if str_eq "cookie" k then some (web.normalize (session_pair v)) else none))
  unfolding create_session_request_metadata
  session_cookie_arrives headers cookies v clean sends found legal = (
    grpc.set grpc.empty "cookie" (session_pair v),
    rw (sends, get_cookie_value-render session_cookie_name cookies clean, found)
        (set_cookie_lem v legal),
    λ k. create_session_request_headers_lem v k,
  )
