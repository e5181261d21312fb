-- ===== src/Base/Text/Cutting.antt =====
-- A prefix is cut off by `slice`, and a separator is found by `indexOf`.
use Prim.Native.Nat.{ℕ}
use Prim.Native.Char.{Char, code}
use Prim.Native.String.{String, [], ◌∷◌}
use mathlib.Core.Path.{◌≡◌, refl, ap}
use mathlib.Core.Bool.{true}
use mathlib.Core.Option.{some, none}
use native.Mathlib.Omega.{arith}
use text.Mathlib.TextLemmas.{nil-append, cons-append}
use polyglot_ticketing_v.Base.Text.{
  append, starts_with, slice_from, slice_to, index_of, count, MissesChar,
}

pub slice_from-append : (p s : String) → slice_from (count p) (append p s) ≡ s
unfolding slice_from
slice_from-append [] s = nil-append s
slice_from-append (c ∷ p) s = rw cons-append (slice_from-append p s)

pub slice_to-append : (p s : String) → slice_to (count p) (append p s) ≡ p
unfolding slice_to
slice_to-append [] s = refl
slice_to-append (c ∷ p) s = rw cons-append (ap (λ (t : String). c ∷ t) (slice_to-append p s))

pub starts_with-append : (p s : String) → starts_with p (append p s) ≡ true
unfolding starts_with
starts_with-append [] s = refl
starts_with-append (c ∷ p) s = rw cons-append (ground (arith, starts_with-append p s))

pub index_of-append :
    (sep : Char) (p s : String)
    → MissesChar (code sep) p
    → index_of (code sep) (append p (sep ∷ s)) ≡ some (count p)
unfolding index_of
index_of-append sep [] s h = rw nil-append (ground arith)
index_of-append sep (c ∷ p) s (ne, h) = rw cons-append (ground (arith, index_of-append sep p s h))

pub index_of-eq-none : (sep : ℕ) (p : String) → MissesChar sep p → index_of sep p ≡ none
unfolding index_of
index_of-eq-none sep [] h = refl
index_of-eq-none sep (c ∷ p) (ne, h) = ground (arith, index_of-eq-none sep p h)
