-- ===== src/Platform/Metadata.antt =====
-- `Metadata` of @grpc/grpc-js, as apps/api-gateway and apps/identity use it: with keys that are
-- lower-case constants. A value with a character outside printable ASCII makes `set` throw.
use polyglot_ticketing_v.Base.{
  ℕ, String, ◌≡◌, Bool, List, [], ◌∷◌, Result, ok, err, str_eq, if◌then◌else◌,
}
use polyglot_ticketing_v.Value.{Value, obj, str, end, entry}

-- `string | Buffer`
pub data MetadataValue : Type 0 where
  text : String → MetadataValue
  buffer : List ℕ → MetadataValue

pub record MetadataApi : Type 1 where
  pub Metadata : Type 0
  pub empty : Metadata
  pub is_legal : String → Bool
  pub set : Metadata → String → String → Metadata
  pub get : Metadata → String → List MetadataValue
  pub get-empty : (k : String) → get empty k ≡ []
  pub get-set :
      (m : Metadata) (k v j : String)
      → get (set m k v) j ≡ (if str_eq k j then text v ∷ [] else get m j)

-- The error of a `set` that throws.
abbrev pub illegal_value : Value
illegal_value = obj (entry "message" (str "Metadata string value contains illegal characters") end)

module _ (api : MetadataApi) where
  open api use {Metadata, is_legal, set}

  -- `metadata.set(key, value)`
  unfoldable pub try_set : Metadata → String → String → Result Value Metadata
  try_set m k v = if is_legal v then ok (set m k v) else err illegal_value
