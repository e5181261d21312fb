-- ===== src/Gateway/Identity/Headers.antt =====
-- The headers of a request, Node's `IncomingHttpHeaders`.
use polyglot_ticketing_v.Base.{String, List, Option, none, some}

-- `string | string[] | undefined`
pub data HeaderValue : Type 0 where
  absent : HeaderValue
  one : String → HeaderValue
  many : List String → HeaderValue

abbrev pub RequestHeaders : Type 0
RequestHeaders = String → HeaderValue

-- The header where it is a single text.
abbrev pub single : HeaderValue → Option String
single (one v) = some v
single _ = none
