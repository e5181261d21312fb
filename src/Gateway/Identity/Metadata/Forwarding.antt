-- ===== src/Gateway/Identity/Metadata/Forwarding.antt =====
-- The allowlist of the headers that cross from HTTP to gRPC.
use polyglot_ticketing_v.Base.{
  String, ◌≡◌, refl, ◌∙◌, Bool, true, false, ◌||◌, Option, none, some, List, [], ◌∷◌, ok, ◌>>=◌,
  str_eq, eq_iff, contains, arith,
}
use polyglot_ticketing_v.Platform.Metadata.{MetadataApi, MetadataValue, text}
use polyglot_ticketing_v.Gateway.Identity.Headers.{
  RequestHeaders, HeaderValue, absent, one, many, single,
}
use polyglot_ticketing_v.Gateway.Identity.Metadata.{
  forwarded_auth_headers, forward_header, forward_headers, create_auth_request_metadata,
}

-- The values of one name, where it is forwarded, and where it is not.
abbrev pub forwarded : Bool → Option String → List MetadataValue → List MetadataValue
forwarded true (some v) rest = text v ∷ []
forwarded true none rest = rest
forwarded false v rest = rest

module _ (api : MetadataApi) where
  open api use {Metadata, empty, is_legal, set, get, get-empty, get-set}

  -- Every header of the request that is a single text can be a metadata value.
  abbrev pub AllLegal : RequestHeaders → Type 0
  AllLegal headers = (name v : String) → headers name ≡ one v → is_legal v ≡ true

  forward_header_lem :
      (name : String) (h : HeaderValue) (m : Metadata)
      → ((v : String) → h ≡ one v → is_legal v ≡ true)
      → (m' : Metadata) × (forward_header api name h m ≡ ok m')
        × ((k : String) → get m' k ≡ forwarded (str_eq name k) (single h) (get m k))
  unfolding forward_header
  forward_header_lem name absent m legal = (m, refl, λ k. ground arith)
  forward_header_lem name (many vs) m legal = (m, refl, λ k. ground arith)
  forward_header_lem name (one v) m legal =
      (set m name v, rw (legal v refl), λ k. rw (get-set m name v k) (ground arith))

  forwarded-twice :
      (headers : RequestHeaders) (name k : String) (later : Bool) (rest : List MetadataValue)
      → forwarded later
          (single (headers k))
          (forwarded (str_eq name k) (single (headers name)) rest)
        ≡ forwarded (str_eq name k || later) (single (headers k)) rest
  forwarded-twice headers name k later rest = ground (arith, eq_iff name k)

  forward_headers-nil :
      (headers : RequestHeaders) (m : Metadata) → forward_headers api headers [] m ≡ ok m
  unfolding forward_headers
  forward_headers-nil headers m = refl

  forward_headers-cons :
      (headers : RequestHeaders) (name : String) (names : List String) (m : Metadata)
      → forward_headers api headers (name ∷ names) m
        ≡ (forward_header api name (headers name) m >>= forward_headers api headers names)
  unfolding forward_headers
  forward_headers-cons headers name names m = refl

  forward_headers_lem :
      (headers : RequestHeaders) (names : List String) (m : Metadata)
      → AllLegal headers
      → (m' : Metadata) × (forward_headers api headers names m ≡ ok m')
        × ((k : String) → get m' k ≡ forwarded (contains names k) (single (headers k)) (get m k))
  forward_headers_lem headers [] m legal = (m, forward_headers-nil headers m, λ k. refl)
  forward_headers_lem headers (name ∷ names) m legal =
      let (m1, e1, g1) = forward_header_lem name (headers name) m (legal name) in
      let (m2, e2, g2) = forward_headers_lem headers names m1 legal in
      (
        m2,
        rw (forward_headers-cons headers name names m, e1) e2,
        λ k. g2 k ∙ rw (g1 k) (forwarded-twice headers name k (contains names k) (get m k)),
      )

  -- Where every header of the request that is a single text can be a metadata value, the metadata
  -- for Identity is made, and its values under a name are the text of the request's header of that
  -- name if the name is on the allowlist and the header a single text, and none otherwise.
  pub create_auth_request_metadata-forwards :
      (headers : RequestHeaders)
      → AllLegal headers
      → (m : Metadata) × (create_auth_request_metadata api headers ≡ ok m)
        × ((k : String)
            → get m k ≡ forwarded (contains forwarded_auth_headers k) (single (headers k)) [])
  unfolding create_auth_request_metadata
  create_auth_request_metadata-forwards headers legal =
      let (m, e, g) = forward_headers_lem headers forwarded_auth_headers empty legal in
      (m, e, λ k. rw (← get-empty k) (g k))
