-- ===== src/Identity/RequestHeaders.antt =====
-- From gRPC metadata back to web headers: apps/identity/src/identity/headers.
use polyglot_ticketing_v.Base.{String, Option, none, some, List, [], ◌∷◌}
use polyglot_ticketing_v.Platform.Metadata.{MetadataApi, MetadataValue, text, buffer}
use polyglot_ticketing_v.Platform.WebHeaders.{HeadersApi}

abbrev pub forwarded_auth_headers : List String
forwarded_auth_headers =
    "origin" ∷ "referer" ∷ "sec-fetch-dest" ∷ "sec-fetch-mode" ∷ "sec-fetch-site" ∷ "user-agent"
    ∷ []

-- `values.find(isString)`
abbrev pub find_string : List MetadataValue → Option String
find_string [] = none
find_string (text s ∷ values) = some s
find_string (buffer b ∷ values) = find_string values

module _ (grpc : MetadataApi) (web : HeadersApi) where
  open grpc use {Metadata, get as get_values}
  open web use {Headers, empty, set}

  -- `if (value !== undefined) headers.set(name, value)`
  abbrev pub set_header : String → Option String → Headers → Headers
  set_header name none headers = headers
  set_header name (some value) headers = set headers name value

  unfoldable pub copy_headers : Metadata → List String → Headers → Headers
  copy_headers metadata [] headers = headers
  copy_headers metadata (name ∷ names) headers =
      copy_headers metadata names (set_header name (find_string (get_values metadata name)) headers)

  unfoldable pub create_auth_request_headers : Metadata → Headers
  unfolding copy_headers
  create_auth_request_headers metadata = copy_headers metadata forwarded_auth_headers empty

  unfoldable pub create_session_request_headers : Metadata → Headers
  create_session_request_headers metadata =
      set_header "cookie" (find_string (get_values metadata "cookie")) empty
