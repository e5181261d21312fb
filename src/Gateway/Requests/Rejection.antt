-- ===== src/Gateway/Requests/Rejection.antt =====
-- The reply to a body that the pipe rejects.
use mathlib.Core.List.{Memᴰ}
use polyglot_ticketing_v.Base.{
  String, true, false, some, List, [], ◌∷◌, map, ◌≡◌, refl, ◌⊎◌, inl, inr, err, contains, lookup,
  eq_iff, arith, All, ◌≢◌, sym, subst,
}
use polyglot_ticketing_v.Platform.ClassValidator.{
  Body, Rules, Check, Decorators, ValidationError, ClassValidator, accepts, Unexpected, Failed,
  keys,
}
use polyglot_ticketing_v.Gateway.Errors.{ErrorItem, Thrown, error_response, item_value}
use polyglot_ticketing_v.Gateway.Errors.Filter.{catch}
use polyglot_ticketing_v.Gateway.Errors.Validation.{
  create_validation_api_error, to_error_item, get_validation_code,
}
use polyglot_ticketing_v.Gateway.Errors.Validation.Replies.{
  catch-create_validation_api_error, to_error_item_texts,
}
use polyglot_ticketing_v.Gateway.Requests.{receive, validation_options}

-- What an item of the reply says of the body: it names a property that the class does not have,
-- or one with a failing check, whose message it has.
pub data Reports (v : ClassValidator) (rules : Rules) (body : Body) (item : ErrorItem)
    : Type 0 where
  unexpected :
      (property : String)
      → contains (keys body) property ≡ true
      → contains (keys rules) property ≡ false
      → item.field ≡ some property
      → item.message ≡ "Unexpected field."
      → item.code ≡ "INVALID_ARGUMENT"
      → Reports v rules body item
  failed :
      (property : String) (decorators : Decorators) (check : Check)
      → Memᴰ (property, decorators) rules
      → Memᴰ (check, item.message) decorators
      → v.passes check (lookup property body) ≡ false
      → item.field ≡ some property
      → item.code ≡ get_validation_code property
      → Reports v rules body item

code-expected :
    (e : ValidationError) (name message : String)
    → e.constraints ≡ some ((name, message) ∷ [])
    → name ≢ "whitelistValidation"
    → (to_error_item e).code ≡ get_validation_code e.property
unfolding to_error_item
code-expected e name message c ne = ground (arith, eq_iff name "whitelistValidation")

to_error_item-Reports :
    (v : ClassValidator) (rules : Rules) (body : Body) (e : ValidationError)
    → Unexpected rules body e ⊎ Failed v.passes rules body e
    → Reports v rules body (to_error_item e)
to_error_item-Reports v rules body e (inl (here, missing, message, c)) =
    let (field, _, _, foreign) = to_error_item_texts e in
    let (said, code) = foreign (("whitelistValidation", message) ∷ []) message c refl in
    unexpected e.property here missing field said code
to_error_item-Reports v rules body e
      (inr (decorators, check, message, name, declared, among, fails, ne, c)) =
    let (field, expected, _, _) = to_error_item_texts e in
    let said = expected name message [] c ne refl in
    failed e.property decorators check declared
      (subst (λ m. Memᴰ (check, m) decorators) (sym said) among) fails field
      (code-expected e name message c ne)

map-All :
    (P : ErrorItem → Type 0) (es : List ValidationError)
    → ((e : ValidationError) → Memᴰ e es → P (to_error_item e))
    → All P (map to_error_item es)
map-All P [] each = tt
map-All P (e ∷ es) each =
    (each e (Memᴰ.head refl), map-All P es λ d among. each d (Memᴰ.tail among))

module _ {ℓ} {A : Type ℓ} (v : ClassValidator) (rules : Rules) (read : Body → A) (body : Body) where
  rejected_with :
      (es : List ValidationError)
      → v.validate validation_options rules body ≡ es
      → accepts v.passes rules body ≡ false
      → (thrown : Thrown) × (item : ErrorItem) × (items : List ErrorItem) × (receive v rules read
            body
          ≡ err thrown)
        × (catch thrown
            ≡ record { status = 400; body = error_response (map item_value (item ∷ items)) })
        × All (Reports v rules body) (item ∷ items)
  unfolding receive
  rejected_with [] clean rejected =
      let (accepted, _) = v.validate-accepts validation_options rules body refl refl in
      let taken = accepted clean in cc
  rejected_with (e ∷ es) errors rejected = (
    create_validation_api_error (e ∷ es),
    to_error_item e,
    map to_error_item es,
    rw errors,
    catch-create_validation_api_error e es,
    map-All (Reports v rules body) (e ∷ es) λ d among. to_error_item-Reports v rules body d (
        v.validate-reports validation_options rules body d refl refl refl
          (subst (λ l. Memᴰ d l) (sym errors) among)),
  )

  -- A body that the class does not accept is answered with status 400 and at least one error. Each
  -- error names a property of the body that the class does not have, or has the message of a
  -- failing check of the property that it names.
  pub receive-rejects :
      accepts v.passes rules body ≡ false
      → (thrown : Thrown) × (item : ErrorItem) × (items : List ErrorItem) × (receive v rules read
            body
          ≡ err thrown)
        × (catch thrown
            ≡ record { status = 400; body = error_response (map item_value (item ∷ items)) })
        × All (Reports v rules body) (item ∷ items)
  receive-rejects rejected = rejected_with (v.validate validation_options rules body) refl rejected
