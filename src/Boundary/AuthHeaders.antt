-- ===== src/Boundary/AuthHeaders.antt =====
-- Which headers of a browser's request reach Better Auth, through both services.
use polyglot_ticketing_v.Base.{
  String, ◌≡◌, refl, ap, ◌∙◌, Bool, true, false, ◌||◌, Option, none, some, List, [], ◌∷◌, ok,
  str_eq, eq_iff, contains, arith,
}
use polyglot_ticketing_v.Platform.Metadata.{MetadataApi}
use polyglot_ticketing_v.Platform.WebHeaders.{HeadersApi}
use polyglot_ticketing_v.Gateway.Identity.Headers.{RequestHeaders, single}
use polyglot_ticketing_v.Gateway.Identity.Metadata.{create_auth_request_metadata}
use polyglot_ticketing_v.Gateway.Identity.Metadata
use polyglot_ticketing_v.Gateway.Identity.Metadata.Forwarding.{
  AllLegal, forwarded, create_auth_request_metadata-forwards,
}
use polyglot_ticketing_v.Identity.RequestHeaders.{
  forwarded_auth_headers, find_string, set_header, copy_headers, create_auth_request_headers,
}

module _ (grpc : MetadataApi) (web : HeadersApi) where
  -- The header that is set for a text, and the one that stays where there is none.
  abbrev pub sent : Bool → Option String → Option String → Option String
  sent true (some v) rest = some (web.normalize v)
  sent true none rest = rest
  sent false v rest = rest

  set_header_lem :
      (name : String) (v : Option String) (h : web.Headers) (k : String)
      → web.get (set_header grpc web name v h) k ≡ sent (str_eq name k) v (web.get h k)
  set_header_lem name none h k = ground arith
  set_header_lem name (some v) h k = rw (web.get-set h name v k) (ground arith)

  sent-twice :
      (values : String → Option String) (name k : String) (later : Bool) (rest : Option String)
      → sent later (values k) (sent (str_eq name k) (values name) rest)
        ≡ sent (str_eq name k || later) (values k) rest
  sent-twice values name k later rest = ground (arith, eq_iff name k)

  copy_headers-cons :
      (m : grpc.Metadata) (name : String) (names : List String) (h : web.Headers)
      → copy_headers grpc web m (name ∷ names) h
        ≡ copy_headers grpc web m names (set_header grpc web name (find_string (grpc.get m name)) h)
  unfolding copy_headers
  copy_headers-cons m name names h = refl

  copy_headers_lem :
      (m : grpc.Metadata) (names : List String) (h : web.Headers) (k : String)
      → web.get (copy_headers grpc web m names h) k
        ≡ sent (contains names k) (find_string (grpc.get m k)) (web.get h k)
  unfolding copy_headers
  copy_headers_lem m [] h k = refl
  copy_headers_lem m (name ∷ names) h k =
      copy_headers_lem m names (set_header grpc web name (find_string (grpc.get m name)) h) k
      ∙ ap (sent (contains names k) (find_string (grpc.get m k)))
          (set_header_lem name (find_string (grpc.get m name)) h k)
      ∙ sent-twice (λ j. find_string (grpc.get m j)) name k (contains names k) (web.get h k)

  create_auth_request_headers_lem :
      (m : grpc.Metadata) (k : String)
      → web.get (create_auth_request_headers grpc web m) k
        ≡ sent (contains forwarded_auth_headers k) (find_string (grpc.get m k)) none
  unfolding create_auth_request_headers
  create_auth_request_headers_lem m k =
      copy_headers_lem m forwarded_auth_headers web.empty k
      ∙ ap (sent (contains forwarded_auth_headers k) (find_string (grpc.get m k))) (web.get-empty k)

  sent-forwarded :
      (b : Bool) (v : Option String) → sent b (find_string (forwarded b v [])) none ≡ sent b v none
  sent-forwarded true none = refl
  sent-forwarded true (some v) = refl
  sent-forwarded false v = refl

  -- The headers by which Better Auth judges a sign-in are those of the browser's request: a header
  -- of the allowlist that is a single text arrives, normalised, and no other header does, the
  -- cookies among them. This is where every single text of the request can be a metadata value.
  pub sign_in_headers_arrive :
      (headers : RequestHeaders)
      → AllLegal grpc headers
      → (m : grpc.Metadata) × (create_auth_request_metadata grpc headers ≡ ok m)
        × ((k : String)
            → web.get (create_auth_request_headers grpc web m) k
              ≡ sent (contains Metadata.forwarded_auth_headers k) (single (headers k)) none)
  sign_in_headers_arrive headers legal =
      let (m, made, values) = create_auth_request_metadata-forwards grpc headers legal in
      (
        m,
        made,
        λ k.
            create_auth_request_headers_lem m k
            ∙ ap (λ vs. sent (contains forwarded_auth_headers k) (find_string vs) none) (values k)
            ∙ sent-forwarded (contains forwarded_auth_headers k) (single (headers k)),
      )
