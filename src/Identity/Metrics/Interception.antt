-- ===== src/Identity/Metrics/Interception.antt =====
-- What the interceptor observes.
use polyglot_ticketing_v.Base.{
  err_injective, ℕ, zero, suc, ℤ, pos, negsuc, String, ◌≡◌, ◌≢◌, ◌↔◌, ◌⊎◌, inl, inr, refl, ap, ◌∙◌,
  true, Option, none, some, List, [], ◌∷◌, contains, Result, ok, err, eq_iff, arith,
}
use polyglot_ticketing_v.Identity.Metrics.{
  Labels, IdentityMetrics, observe_request, codes, nth, or_unknown, grpc_code, Call, method_name,
  intercept,
}

contains-nth :
    (n : ℕ) (list : List String) (s : String) → nth n list ≡ some s → contains list s ≡ true
unfolding nth
contains-nth n [] s h = absurd (ground arith)
contains-nth zero (t ∷ list) s h = ground (arith, eq_iff t s)
contains-nth (suc n) (t ∷ list) s h = ground (arith, contains-nth n list s h)

grpc_code-known : (code : Option ℤ) → contains codes (grpc_code code) ≡ true
unfolding grpc_code
grpc_code-known none = refl
grpc_code-known (some (negsuc n)) = refl
grpc_code-known (some (pos n)) = go (nth n codes) refl
  where
    go : (o : Option String) → nth n codes ≡ o → contains codes (or_unknown o) ≡ true
    go none h = refl
    go (some s) h = contains-nth n codes s h

abbrev tail_of : List String → List String
tail_of [] = []
tail_of (s ∷ list) = list

abbrev later_codes : List String
later_codes = tail_of codes

unknown-ne-ok : ◌≢◌ {A = String} "Unknown" "OK"
unknown-ne-ok h = ground (arith, eq_iff "Unknown" "OK")

-- Only the code 0 is named OK.
grpc_code-ok_iff : (code : Option ℤ) → (grpc_code code ≡ "OK") ↔ (code ≡ some (pos 0))
unfolding grpc_code
grpc_code-ok_iff none = (λ h. absurd (unknown-ne-ok h), λ h. absurd (ground arith))
grpc_code-ok_iff (some (negsuc n)) = (λ h. absurd (unknown-ne-ok h), λ h. absurd (ground arith))
grpc_code-ok_iff (some (pos zero)) = (λ h. refl, λ h. refl)
grpc_code-ok_iff (some (pos (suc n))) =
    (λ h. absurd (go (nth n later_codes) refl h), λ h. absurd (ground arith))
  where
    go : (o : Option String) → nth n later_codes ≡ o → or_unknown o ≡ "OK" → ⊥
    go none e h = unknown-ne-ok h
    go (some s) e h =
        absurd (ground (arith, ap (λ t. contains later_codes t) h, contains-nth n later_codes s e))

module _ {ℓ κ} {E : Type ℓ} {A : Type κ} (code_of : E → Option ℤ) where
  -- The interceptor passes on what the handler returns or throws, and observes the call once, in the
  -- counter and in the histogram, under a name of the table of gRPC codes. The name is OK exactly
  -- where the handler returns, or throws something whose code is 0.
  pub intercept-observes :
      (call : Call) (handled : Result E A) (metrics : IdentityMetrics)
      → (labels : Labels) × ((intercept code_of call handled metrics).0 ≡ handled)
        × ((intercept code_of call handled metrics).1.requests ≡ labels ∷ metrics.requests)
        × ((intercept code_of call handled metrics).1.durations
            ≡ (labels, call.seconds) ∷ metrics.durations)
        × (labels.method ≡ method_name call)
        × (contains codes labels.code ≡ true)
        × ((labels.code ≡ "OK") ↔ (
            ((a : A) × (handled ≡ ok a))
            ⊎ ((e : E) × (handled ≡ err e) × (code_of e ≡ some (pos 0)))))
  unfolding intercept observe_request
  intercept-observes call (ok a) metrics = (
    record { method = method_name call; code = "OK" },
    refl,
    refl,
    refl,
    refl,
    refl,
    (λ h. inl (a, refl), λ h. refl),
  )
  intercept-observes call (err e) metrics = (
    record { method = method_name call; code = grpc_code (code_of e) },
    refl,
    refl,
    refl,
    refl,
    grpc_code-known (code_of e),
    (λ h. inr (e, refl, (grpc_code-ok_iff (code_of e)).0 h), from_either),
  )
    where
      err_code :
          (x : E)
          → ◌≡◌ {A = Result E A} (err e) (err x)
          → code_of x ≡ some (pos 0)
          → code_of e ≡ some (pos 0)
      err_code x same zero_code = ap code_of (err_injective same) ∙ zero_code

      from_either :
          ((a : A) × (◌≡◌ {A = Result E A} (err e) (ok a)))
            ⊎ ((x : E) × (◌≡◌ {A = Result E A} (err e) (err x)) × (code_of x ≡ some (pos 0)))
          → grpc_code (code_of e) ≡ "OK"
      from_either (inl (a, h)) = absurd (ground arith)
      from_either (inr (x, same, zero_code)) =
          (grpc_code-ok_iff (code_of e)).1 (err_code x same zero_code)
