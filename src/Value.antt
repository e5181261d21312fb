-- ===== src/Value.antt =====
-- A JavaScript value of type `unknown`, as the error handling of the services inspects it: with
-- `typeof`, `in`, `Array.isArray` and property reads. An `Error` object is an object with its
-- own properties, such as `message`; numbers are whole.
pub mod Json
use polyglot_ticketing_v.Base.{
  ℤ, String, Bool, true, false, Option, none, some, List, [], ◌∷◌, str_eq, if◌then◌else◌,
}

mutual
  pub data Value : Type 0 where
    undefined null : Value
    bool : Bool → Value
    num : ℤ → Value
    str : String → Value
    arr : Items → Value
    obj : Fields → Value

  pub data Items : Type 0 where
    nil : Items
    cons : Value → Items → Items

  pub data Fields : Type 0 where
    end : Fields
    entry : String → Value → Fields → Fields

abbrev pub to_list : Items → List Value
to_list nil = []
to_list (cons v vs) = v ∷ to_list vs

abbrev pub of_list : List Value → Items
of_list [] = nil
of_list (v ∷ vs) = cons v (of_list vs)

abbrev pub get_field : String → Fields → Option Value
get_field k end = none
get_field k (entry j v fs) = if str_eq j k then some v else get_field k fs

-- The property `k` of an object; arrays have none of the names that the services look up.
abbrev pub property : String → Value → Option Value
property k (obj fs) = get_field k fs
property k _ = none

-- `typeof value === 'object' && value !== null`
abbrev pub is_object : Value → Bool
is_object (obj fs) = true
is_object (arr vs) = true
is_object _ = false

-- `typeof value === 'string'`, with the text.
abbrev pub as_text : Value → Option String
as_text (str s) = some s
as_text _ = none

-- `typeof value === 'number'`, with the number.
abbrev pub as_number : Value → Option ℤ
as_number (num n) = some n
as_number _ = none

-- `Array.isArray(value)`, with the elements.
abbrev pub as_array : Value → Option (List Value)
as_array (arr vs) = some (to_list vs)
as_array _ = none

abbrev pub and_then {ℓ κ} : {A : Type ℓ} {B : Type κ} → Option A → (A → Option B) → Option B
and_then none f = none
and_then (some a) f = f a

-- `'k' in value && typeof value.k === 'string'`, with the text.
abbrev pub text_property : String → Value → Option String
text_property k v = and_then (property k v) as_text

-- `'k' in value && typeof value.k === 'number'`, with the number.
abbrev pub number_property : String → Value → Option ℤ
number_property k v = and_then (property k v) as_number
