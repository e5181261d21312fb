-- ===== src/Tests/Samples/Validator/Reports.antt =====
-- The errors of the sample validator, each of which is for an unexpected property or a failed
-- check.
use mathlib.Core.List.{Memᴰ}
use mathlib.Core.List.Memᴰ.{not-nil, cases_cons, append_cases}
use polyglot_ticketing_v.Base.{
  String, Bool, true, false, Option, none, some, List, [], ◌∷◌, contains, lookup, str_eq,
  if◌then◌else◌, ◌≡◌, ◌⊎◌, inl, inr, refl, sym, ap, subst, arith, eq_iff,
}
use polyglot_ticketing_v.Platform.ClassValidator.{
  Body, BodyValue, Check, Decorators, Rules, ValidatorOptions, ValidationError, ClassValidator,
  keys, Unexpected, Failed,
}
use polyglot_ticketing_v.Tests.Samples.Validator.{
  passes, uuid_format, unexpected_errors, first_failed, with_failure, property_errors, validate,
  uuid_test_iff, validate-accepts_sample,
}

str_eq_refl : (s : String) → str_eq s s ≡ true
str_eq_refl s = (eq_iff s s).1 refl

contains-of_mem : (k : String) (ks : List String) → Memᴰ k ks → contains ks k ≡ true
contains-of_mem k [] among = absurd (not-nil among)
contains-of_mem k (j ∷ ks) among = elim (cases_cons among) [
  | inl here ↦ rw (sym here, str_eq_refl k)
  | inr later ↦ ground (arith, contains-of_mem k ks later)
]

-- The membership in a list with one element more where a test fails.
mem_if {ℓ} :
    {A : Type ℓ} (b : Bool) (x e : A) (rest : List A)
    → Memᴰ e (if b then rest else x ∷ rest)
    → Memᴰ e rest ⊎ ((b ≡ false) × (e ≡ x))
mem_if true x e rest among = inl among
mem_if false x e rest among = elim (cases_cons among) [
  | inl here ↦ inr (refl, here)
  | inr later ↦ inl later
]

of_unexpected :
    (known ks : List String) (e : ValidationError)
    → Memᴰ e (unexpected_errors known ks)
    → Memᴰ e.property ks
      × (contains known e.property ≡ false)
      × (e.constraints ≡ some (("whitelistValidation", "should not exist") ∷ []))
of_unexpected known [] e among = absurd (not-nil among)
of_unexpected known (k ∷ ks) e among =
    elim (mem_if (contains known k) _ e (unexpected_errors known ks) among) [
      | inl later ↦
          let (m, missing, c) = of_unexpected known ks e later in (Memᴰ.tail m, missing, c)
      | inr (missing, here) ↦
          let named = ap (λ (d : ValidationError). d.property) here in
          (
            Memᴰ.head named,
            subst (λ p. contains known p ≡ false) (sym named) missing,
            ap (λ (d : ValidationError). d.constraints) here,
          )
    ]

some_if {ℓ} :
    {A : Type ℓ} (b : Bool) (x y : A) (rest : Option A)
    → (if b then rest else some x) ≡ some y
    → (rest ≡ some y) ⊎ ((b ≡ false) × (y ≡ x))
some_if true x y rest found = inl found
some_if false x y rest found = inr (refl, cc)

first_failed-some :
    (v : Option BodyValue) (ds : Decorators) (message : String)
    → first_failed v ds ≡ some message
    → (check : Check) × Memᴰ (check, message) ds × (passes check v ≡ false)
first_failed-some v [] message found = cc
first_failed-some v ((check, m) ∷ ds) message found =
    elim (some_if (passes check v) m message (first_failed v ds) found) [
      | inl later ↦
          let (c, among, fails) = first_failed-some v ds message later in
          (c, Memᴰ.tail among, fails)
      | inr (fails, here) ↦ (check, Memᴰ.head (rw here), fails)
    ]

mem_failure :
    (p : String) (o : Option String) (e : ValidationError) (rest : List ValidationError)
    → Memᴰ e (with_failure p o rest)
    → Memᴰ e rest
      ⊎ ((message : String) × (o ≡ some message)
          × (e.property ≡ p)
          × (e.constraints ≡ some (("check", message) ∷ [])))
mem_failure p none e rest among = inl among
mem_failure p (some message) e rest among = elim (cases_cons among) [
  | inl here ↦ inr (
    message,
    refl,
    ap (λ (d : ValidationError). d.property) here,
    ap (λ (d : ValidationError). d.constraints) here,
  )
  | inr later ↦ inl later
]

of_property :
    (rules : Rules) (body : Body) (e : ValidationError)
    → Memᴰ e (property_errors rules body)
    → Failed passes rules body e
of_property [] body e among = absurd (not-nil among)
of_property ((p, ds) ∷ rules) body e among =
    elim (mem_failure p (first_failed (lookup p body) ds) e (property_errors rules body) among) [
      | inl later ↦
          let (decorators, check, message, name, declared, listed, fails, ne, c) =
            of_property rules body e later in
          (decorators, check, message, name, Memᴰ.tail declared, listed, fails, ne, c)
      | inr (message, found, named, c) ↦
          let (check, listed, fails) = first_failed-some (lookup p body) ds message found in
          (
            ds,
            check,
            message,
            "check",
            Memᴰ.head (ap (λ q. (q, ds)) named),
            listed,
            subst (λ q. passes check (lookup q body) ≡ false) (sym named) fails,
            λ same. ground (arith, eq_iff "check" "whitelistValidation"),
            c,
          )
    ]

pub validate-reports_sample :
    (options : ValidatorOptions) (rules : Rules) (body : Body) (e : ValidationError)
    → options.whitelist ≡ true
    → options.forbid_non_whitelisted ≡ true
    → options.stop_at_first_error ≡ true
    → Memᴰ e (validate options rules body)
    → Unexpected rules body e ⊎ Failed passes rules body e
validate-reports_sample options rules body e w f s among =
    elim (append_cases (unexpected_errors (keys rules) (keys body)) among) [
      | inl early ↦
          let (there, missing, c) = of_unexpected (keys rules) (keys body) e early in
          inl (contains-of_mem e.property (keys body) there, missing, "should not exist", c)
      | inr late ↦ inr (of_property rules body e late)
    ]

abbrev pub validator : ClassValidator
validator = record {
  passes = passes;
  validate = validate;
  uuid_format = uuid_format;
  passes-is_string = λ v. refl;
  passes-is_not_empty = λ v. refl;
  passes-is_int = λ v. refl;
  passes-min = λ bound z. refl;
  passes-max = λ bound z. refl;
  passes-is_uuid = uuid_test_iff;
  validate-accepts = validate-accepts_sample;
  validate-reports = validate-reports_sample;
}
