-- ===== src/Value/Json.antt =====
-- The engine's `JSON`: an interface, as the services only call it.
use polyglot_ticketing_v.Base.{String, ◌≡◌, Option, some}
use polyglot_ticketing_v.Value.{Value}

-- `parse` is `none` where `JSON.parse` throws.
pub record Json : Type 0 where
  pub parse : String → Option Value
  pub stringify : Value → String

-- What the language promises of a document of objects, arrays and texts.
abbrev pub RoundTrips : Json → Value → Type 0
RoundTrips json v = json.parse (json.stringify v) ≡ some v
