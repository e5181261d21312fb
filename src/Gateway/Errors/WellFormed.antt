-- ===== src/Gateway/Errors/WellFormed.antt =====
-- The error items of the documents of apps/api-gateway/src/errors, apart from the tests of the code.
use polyglot_ticketing_v.Base.{
  ◌≡◌, refl, ◌⊎◌, inl, inr, Bool, true, false, ◌&&◌, String, Option, none, some, List, [], ◌∷◌, all,
  All,
}
use polyglot_ticketing_v.Base.Text.{is_some}
use polyglot_ticketing_v.Value.{
  Value, undefined, null, bool, num, str, arr, obj, property, is_object, as_text, text_property,
  and_then,
}
use polyglot_ticketing_v.Gateway.Errors.{optional_text}
use polyglot_ticketing_v.Gateway.Errors.Filter.{is_error_item}

-- An object with a text `message`, a text `code` and, if it has a `field`, a text there; only
-- objects have properties.
pub record WellFormed (v : Value) : Type 0 where
  pub message : String
  pub has_message : property "message" v ≡ some (str message)
  pub code : String
  pub has_code : property "code" v ≡ some (str code)
  pub has_field :
      (property "field" v ≡ none) ⊎ ((field : String) × (property "field" v ≡ some (str field)))

text-str :
    (o : Option Value) → is_some (and_then o as_text) ≡ true → (s : String) × (o ≡ some (str s))
text-str (some (str s)) h = (s, refl)
text-str (some undefined) h = cc
text-str (some null) h = cc
text-str (some (bool b)) h = cc
text-str (some (num n)) h = cc
text-str (some (arr vs)) h = cc
text-str (some (obj fs)) h = cc
text-str none h = cc

optional_text-str :
    (o : Option Value) → optional_text o ≡ true → (o ≡ none) ⊎ ((s : String) × (o ≡ some (str s)))
optional_text-str none h = inl refl
optional_text-str (some v) h = inr (text-str (some v) h)

both : (a b : Bool) → (a && b) ≡ true → (a ≡ true) × (b ≡ true)
both true b h = (refl, h)
both false b h = cc

pub is_error_item-WellFormed : (v : Value) → is_error_item v ≡ true → WellFormed v
unfolding is_error_item
is_error_item-WellFormed v h =
    let has = λ (name : String). is_some (text_property name v) in
    let f = optional_text (property "field" v) in
    let (h1, f_holds) = both (is_object v && has "message" && has "code") f h in
    let (h2, c) = both (is_object v && has "message") (has "code") h1 in
    let (object, m) = both (is_object v) (has "message") h2 in
    let (message, has_message) = text-str (property "message" v) m in
    let (code, has_code) = text-str (property "code" v) c in
    record {
      message = message;
      has_message = has_message;
      code = code;
      has_code = has_code;
      has_field = optional_text-str (property "field" v) f_holds;
    }

pub all-WellFormed : (vs : List Value) → all is_error_item vs ≡ true → All WellFormed vs
all-WellFormed [] h = tt
all-WellFormed (v ∷ vs) h =
    let (here, rest) = both (is_error_item v) (all is_error_item vs) h in
    (is_error_item-WellFormed v here, all-WellFormed vs rest)
