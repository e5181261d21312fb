-- ===== src/Base/Calls.antt =====
-- Calls that return or throw and pass a state on.
use mathlib.Core.Path.{◌≡◌, refl, ap}
use polyglot_ticketing_v.Base.Tests.{Result, ok, err}

abbrev pub Call {ℓ} : Type ℓ → Type ℓ → Type ℓ → Type ℓ
Call E S A = S → Result E A × S

abbrev pub pure {ℓ} : {E S A : Type ℓ} → A → Call E S A
pure a s = (ok a, s)

abbrev pub throw {ℓ} : {E S A : Type ℓ} → E → Call E S A
throw e s = (err e, s)

abbrev pub and_then {ℓ} : {E S A B : Type ℓ} → Result E A × S → (A → Call E S B) → Result E B × S
and_then (ok a, s) f = f a s
and_then (err e, s) f = (err e, s)

infixl 5 ◌>>=◌ ◌>>◌
abbrev pub ◌>>=◌ {ℓ} : {E S A B : Type ℓ} → Call E S A → (A → Call E S B) → Call E S B
◌>>=◌ m f s = and_then (m s) f

abbrev pub ◌>>◌ {ℓ} : {E S A B : Type ℓ} → Call E S A → Call E S B → Call E S B
m >> k = m >>= λ _. k

abbrev pub or_handle {ℓ} : {E S A : Type ℓ} → Result E A × S → (E → Call E S A) → Result E A × S
or_handle (ok a, s) handler = (ok a, s)
or_handle (err e, s) handler = handler e s

-- `try { m } catch (error) { handler(error) }`
abbrev pub catching {ℓ} : {E S A : Type ℓ} → Call E S A → (E → Call E S A) → Call E S A
catching m handler s = or_handle (m s) handler

-- A result as a call that leaves the state.
abbrev pub lift {ℓ} : {E S A : Type ℓ} → Result E A → Call E S A
lift r s = (r, s)

module _ {ℓ} {E S A B : Type ℓ} where
  and_then-ok :
      (r : Result E A × S) (f : A → Call E S B) {b : B} {t : S}
      → and_then r f ≡ (ok b, t)
      → (a : A) × (u : S) × (r ≡ (ok a, u)) × (f a u ≡ (ok b, t))
  and_then-ok (ok a, u) f h = (a, u, refl, h)
  and_then-ok (err e, u) f h = cc

  -- A chain that returns has a first call that returns, and the rest goes on from there.
  pub >>=-ok :
      (m : Call E S A) (f : A → Call E S B) {s t : S} {b : B}
      → (m >>= f) s ≡ (ok b, t)
      → (a : A) × (u : S) × (m s ≡ (ok a, u)) × (f a u ≡ (ok b, t))
  >>=-ok m f {s} h = and_then-ok (m s) f h

module _ {ℓ} {E S A : Type ℓ} where
  rethrown :
      (r : Result E A × S) (g : E → E) {a : A} {t : S}
      → or_handle r (λ e. throw (g e)) ≡ (ok a, t)
      → r ≡ (ok a, t)
  rethrown (ok a, u) g h = h
  rethrown (err e, u) g h = cc

  -- A call that is only thrown on by its handler returns where the whole does.
  pub catching-ok :
      (m : Call E S A) (g : E → E) {s t : S} {a : A}
      → catching m (λ e. throw (g e)) s ≡ (ok a, t)
      → m s ≡ (ok a, t)
  catching-ok m g {s} h = rethrown (m s) g h

  pub lift-ok : (r : Result E A) {s t : S} {a : A} → lift r s ≡ (ok a, t) → (r ≡ ok a) × (s ≡ t)
  lift-ok r h = (ap (λ x. x.0) h, ap (λ x. x.1) h)
