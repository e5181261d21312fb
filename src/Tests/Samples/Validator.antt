-- ===== src/Tests/Samples/Validator.antt =====
-- A validator of request bodies with one UUID, which always validates with all three options.
pub mod Reports
use mathlib.Core.List.{Memᴰ}
use polyglot_ticketing_v.Base.{
  ℕ, ℤ, String, Bool, true, false, not, ◌&&◌, Option, none, some, List, [], ◌∷◌, ◌++◌, all, any,
  contains, lookup, leb, str_eq, if◌then◌else◌, ◌≡◌, ◌≢◌, ◌↔◌, ◌⊎◌, inl, inr, refl, sym, subst,
  arith, eq_iff, Bool-cases,
}
use polyglot_ticketing_v.Platform.Numbers.{whole, not_whole}
use polyglot_ticketing_v.Platform.ClassValidator.{
  Body, BodyValue, text, number, Check, Decorators, Rules, ValidatorOptions, ValidationError,
  ClassValidator, accepts, keys, is_text, is_present, is_whole, at_least, at_most, Unexpected,
  Failed, is_string, is_not_empty, is_email, is_int, is_uuid, length, min, max,
}

abbrev pub one_uuid : String
one_uuid = "4b6f8d0e-1c2a-4f3b-9d5e-7a8b9c0d1e2f"

abbrev pub uuid_format : String → String → Bool
uuid_format version s = str_eq s one_uuid

abbrev uuid_test : String → Option BodyValue → Bool
uuid_test version (some (text s)) = uuid_format version s
uuid_test version _ = false

abbrev number_test : (ℤ → Bool) → Option BodyValue → Bool
number_test test (some (number (whole z))) = test z
number_test test _ = false

abbrev pub passes : Check → Option BodyValue → Bool
passes is_string v = is_text v
passes is_not_empty v = is_present v
passes is_email v = is_text v
passes is_int v = is_whole v
passes (is_uuid version) v = uuid_test version v
passes (length low high) v = is_text v
passes (min bound) v = number_test (at_least bound) v
passes (max bound) v = number_test (at_most bound) v

abbrev pub unexpected_errors : List String → List String → List ValidationError
unexpected_errors known [] = []
unexpected_errors known (k ∷ ks) =
    let rest = unexpected_errors known ks in
    if contains known k
    then rest
    else record {
      property = k;
      constraints = some (("whitelistValidation", "should not exist") ∷ []);
    }
      ∷ rest

abbrev pub first_failed : Option BodyValue → Decorators → Option String
first_failed v [] = none
first_failed v ((check, message) ∷ ds) = if passes check v then first_failed v ds else some message

abbrev pub with_failure : String → Option String → List ValidationError → List ValidationError
with_failure property none rest = rest
with_failure property (some message) rest =
    record { property = property; constraints = some (("check", message) ∷ []) } ∷ rest

abbrev pub property_errors : Rules → Body → List ValidationError
property_errors [] body = []
property_errors ((p, ds) ∷ rules) body =
    with_failure p (first_failed (lookup p body) ds) (property_errors rules body)

abbrev pub validate : ValidatorOptions → Rules → Body → List ValidationError
validate options rules body =
    unexpected_errors (keys rules) (keys body) ++ property_errors rules body

text_injective : {s t : String} → ◌≡◌ {A = Option BodyValue} (some (text s)) (some (text t)) → s ≡ t
text_injective h = cc

pub uuid_test_iff :
    (version : String) (v : Option BodyValue)
    → (uuid_test version v ≡ true)
      ↔ ((s : String) × (v ≡ some (text s)) × (uuid_format version s ≡ true))
uuid_test_iff version (some (text s)) = (
  λ h. (s, refl, h),
  λ (t, same, h). subst (λ u. uuid_format version u ≡ true) (sym (text_injective same)) h,
)
uuid_test_iff version none = (λ h. cc, λ (t, same, h). cc)
uuid_test_iff version _ = (λ h. cc, λ (t, same, h). cc)

append-nil_iff {ℓ} : {A : Type ℓ} (xs ys : List A) → ((xs ++ ys) ≡ []) ↔ ((xs ≡ []) × (ys ≡ []))
append-nil_iff [] ys = (λ h. (refl, h), λ h. h.1)
append-nil_iff (x ∷ xs) ys = (λ h. cc, λ h. cc)

-- A list with one error more where a test fails, or with a message where it fails.
if_cons_iff {ℓ} :
    {A : Type ℓ} (b t : Bool) (x : A) (rest : List A)
    → (rest ≡ []) ↔ (t ≡ true)
    → ((if b then rest else x ∷ rest) ≡ []) ↔ ((b && t) ≡ true)
if_cons_iff true t x rest h = h
if_cons_iff false t x rest h = (λ e. cc, λ e. cc)

if_some_iff {ℓ} :
    {A : Type ℓ} (b t : Bool) (x : A) (rest : Option A)
    → (rest ≡ none) ↔ (t ≡ true)
    → ((if b then rest else some x) ≡ none) ↔ ((b && t) ≡ true)
if_some_iff true t x rest h = h
if_some_iff false t x rest h = (λ e. cc, λ e. cc)

unexpected_errors-nil_iff :
    (known ks : List String) → (unexpected_errors known ks ≡ []) ↔ (all (contains known) ks ≡ true)
unexpected_errors-nil_iff known [] = (λ h. refl, λ h. refl)
unexpected_errors-nil_iff known (k ∷ ks) =
    if_cons_iff (contains known k) (all (contains known) ks) _ _
      (unexpected_errors-nil_iff known ks)

abbrev all_pass : Option BodyValue → Decorators → Bool
all_pass v ds = all (λ (d : Check × String). passes (d.0) v) ds

first_failed-none_iff :
    (v : Option BodyValue) (ds : Decorators) → (first_failed v ds ≡ none) ↔ (all_pass v ds ≡ true)
first_failed-none_iff v [] = (λ h. refl, λ h. refl)
first_failed-none_iff v ((check, message) ∷ ds) =
    if_some_iff (passes check v) (all_pass v ds) message _ (first_failed-none_iff v ds)

with_failure-nil_iff :
    (p : String) (o : Option String) (rest : List ValidationError) (b t : Bool)
    → (o ≡ none) ↔ (b ≡ true)
    → (rest ≡ []) ↔ (t ≡ true)
    → (with_failure p o rest ≡ []) ↔ ((b && t) ≡ true)
with_failure-nil_iff p none rest true t (bto, bfrom) h = h
with_failure-nil_iff p none rest false t (bto, bfrom) h =
    let impossible = bto refl in (λ e. cc, λ e. cc)
with_failure-nil_iff p (some m) rest true t (bto, bfrom) h =
    let impossible = bfrom refl in (λ e. cc, λ e. cc)
with_failure-nil_iff p (some m) rest false t (bto, bfrom) h = (λ e. cc, λ e. cc)

property_errors-nil_iff :
    (rules : Rules) (body : Body)
    → (property_errors rules body ≡ []) ↔ (
        all (λ (rule : String × Decorators). all_pass (lookup (rule.0) body) (rule.1)) rules ≡ true)
property_errors-nil_iff [] body = (λ h. refl, λ h. refl)
property_errors-nil_iff ((p, ds) ∷ rules) body =
    with_failure-nil_iff p (first_failed (lookup p body) ds) (property_errors rules body)
      (all_pass (lookup p body) ds) _ (first_failed-none_iff (lookup p body) ds)
      (property_errors-nil_iff rules body)

and_flip_iff : (a b : Bool) → ((a ≡ true) × (b ≡ true)) ↔ ((b && a) ≡ true)
and_flip_iff true true = (λ h. refl, λ h. (refl, refl))
and_flip_iff true false = (λ h. h.1, λ h. (refl, h))
and_flip_iff false true = (λ h. h.0, λ h. (h, refl))
and_flip_iff false false = (λ h. h.0, λ h. (h, h))

pub validate-accepts_sample :
    (options : ValidatorOptions) (rules : Rules) (body : Body)
    → options.whitelist ≡ true
    → options.forbid_non_whitelisted ≡ true
    → (validate options rules body ≡ []) ↔ (accepts passes rules body ≡ true)
validate-accepts_sample options rules body w f =
    let (split, join) =
      append-nil_iff (unexpected_errors (keys rules) (keys body)) (property_errors rules body) in
    let (uto, ufrom) = unexpected_errors-nil_iff (keys rules) (keys body) in
    let (pto, pfrom) = property_errors-nil_iff rules body in
    let (both, each) =
      and_flip_iff (all (contains (keys rules)) (keys body))
        (all (λ (rule : String × Decorators). all_pass (lookup (rule.0) body) (rule.1)) rules) in
    (
      λ h. let (u, p) = split h in both (uto u, pto p),
      λ h. let (u, p) = each h in join (ufrom u, pfrom p),
    )
