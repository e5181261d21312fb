-- ===== src/Platform/ClassValidator.antt =====
-- class-validator: the checks that decorators declare on the properties of a request body, and
-- the validation of a body against them, by what its documentation says.
use mathlib.Core.List.{Memᴰ}
use polyglot_ticketing_v.Base.{
  ℕ, ℤ, pos, negsuc, String, Bool, true, false, not, ◌&&◌, Option, none, some, List, [], ◌∷◌, all,
  contains, lookup, leb, str_eq, ◌≡◌, ◌≢◌, ◌↔◌, ◌⊎◌,
}
use polyglot_ticketing_v.Platform.Numbers.{JsNumber, whole}

-- A value of a parsed body. No check looks into an array or an object.
pub data BodyValue : Type 0 where
  null array object : BodyValue
  flag : Bool → BodyValue
  number : JsNumber → BodyValue
  text : String → BodyValue

-- The properties of a body, each named once; one that is not there is `undefined`.
abbrev pub Body : Type 0
Body = List (String × BodyValue)

-- The bounds of `Length`, `Min` and `Max` are natural numbers.
pub data Check : Type 0 where
  is_string is_not_empty is_email is_int : Check
  is_uuid : (version : String) → Check
  length : (low high : ℕ) → Check
  min max : ℕ → Check

-- The decorators of one property: each a check, with the message of its failure.
abbrev pub Decorators : Type 0
Decorators = List (Check × String)

-- A class of bodies: its properties in order.
abbrev pub Rules : Type 0
Rules = List (String × Decorators)

pub record ValidatorOptions : Type 0 where
  pub whitelist : Bool
  pub forbid_non_whitelisted : Bool
  pub stop_at_first_error : Bool

-- The constraints, by name in order of insertion, are the messages of the failed checks.
pub record ValidationError : Type 0 where
  pub property : String
  pub constraints : Option (List (String × String))

abbrev pub keys {ℓ} : {V : Type ℓ} → List (String × V) → List String
keys [] = []
keys ((k, _) ∷ m) = k ∷ keys m

abbrev pub is_text : Option BodyValue → Bool
is_text (some (text s)) = true
is_text _ = false

-- `value !== '' && value !== null && value !== undefined`
abbrev pub is_present : Option BodyValue → Bool
is_present none = false
is_present (some null) = false
is_present (some (text s)) = not (str_eq s "")
is_present _ = true

abbrev pub is_whole : Option BodyValue → Bool
is_whole (some (number (whole z))) = true
is_whole _ = false

abbrev pub at_least : ℕ → ℤ → Bool
at_least bound (pos n) = leb bound n
at_least bound (negsuc n) = false

abbrev pub at_most : ℕ → ℤ → Bool
at_most bound (pos n) = leb n bound
at_most bound (negsuc n) = true

-- An error for a property that the class does not have.
abbrev pub Unexpected : Rules → Body → ValidationError → Type 0
Unexpected rules body e =
    (contains (keys body) e.property ≡ true)
    × (contains (keys rules) e.property ≡ false)
    × (message : String) × (e.constraints ≡ some (("whitelistValidation", message) ∷ []))

module _ (passes : Check → Option BodyValue → Bool) where
  -- Every check of every property passes, and the body has no other property.
  abbrev pub accepts : Rules → Body → Bool
  accepts rules body =
      all
        (λ (rule : String × Decorators).
          all (λ (d : Check × String). passes (d.0) (lookup (rule.0) body)) (rule.1))
        rules
      && all (contains (keys rules)) (keys body)

  -- An error for a check that fails.
  abbrev pub Failed : Rules → Body → ValidationError → Type 0
  Failed rules body e =
      (decorators : Decorators) × (check : Check) × (message : String) × (name : String) × Memᴰ
        (e.property, decorators) rules
      × Memᴰ (check, message) decorators
      × (passes check (lookup e.property body) ≡ false)
      × (name ≢ "whitelistValidation")
      × (e.constraints ≡ some ((name, message) ∷ []))

pub record ClassValidator : Type 0 where
  pub passes : Check → Option BodyValue → Bool
  pub validate : ValidatorOptions → Rules → Body → List ValidationError
  -- The format of a UUID of a version.
  pub uuid_format : String → String → Bool
  -- "Checks if the value is a string", "is not empty", "is an integer number", "is greater than
  -- or equal to", "is less than or equal to", "is a UUID" of the version.
  pub passes-is_string : (v : Option BodyValue) → passes is_string v ≡ is_text v
  pub passes-is_not_empty : (v : Option BodyValue) → passes is_not_empty v ≡ is_present v
  pub passes-is_int : (v : Option BodyValue) → passes is_int v ≡ is_whole v
  pub passes-min :
      (bound : ℕ) (z : ℤ) → passes (min bound) (some (number (whole z))) ≡ at_least bound z
  pub passes-max :
      (bound : ℕ) (z : ℤ) → passes (max bound) (some (number (whole z))) ≡ at_most bound z
  pub passes-is_uuid :
      (version : String) (v : Option BodyValue)
      → (passes (is_uuid version) v ≡ true)
        ↔ ((s : String) × (v ≡ some (text s)) × (uuid_format version s ≡ true))
  -- With all three options, the errors are none exactly for an accepted body, and each of them is
  -- for an unexpected property or for one failed check of an expected property.
  pub validate-accepts :
      (options : ValidatorOptions) (rules : Rules) (body : Body)
      → options.whitelist ≡ true
      → options.forbid_non_whitelisted ≡ true
      → (validate options rules body ≡ []) ↔ (accepts passes rules body ≡ true)
  pub validate-reports :
      (options : ValidatorOptions) (rules : Rules) (body : Body) (e : ValidationError)
      → options.whitelist ≡ true
      → options.forbid_non_whitelisted ≡ true
      → options.stop_at_first_error ≡ true
      → Memᴰ e (validate options rules body)
      → Unexpected rules body e ⊎ Failed passes rules body e
