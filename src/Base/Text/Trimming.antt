-- ===== src/Base/Text/Trimming.antt =====
-- Trimming a trimmed text changes nothing.
use Prim.Native.Char.{Char, code}
use Prim.Native.String.{String, [], ◌∷◌}
use mathlib.Core.Path.{◌≡◌, refl, ap, ◌∙◌}
use mathlib.Core.Bool.{false}
use mathlib.Core.Logic.{inl, inr}
use polyglot_ticketing_v.Base.Tests.{if◌then◌else◌, Bool-cases}
use polyglot_ticketing_v.Base.Text.{is_space, trim_start, close_end, trim_end, trim}

abbrev StartsClean : String → Type 0
StartsClean [] = Unit
StartsClean (c ∷ s) = is_space (code c) ≡ false

trim_start-StartsClean : (s : String) → StartsClean (trim_start s)
unfolding trim_start
trim_start-StartsClean [] = tt
trim_start-StartsClean (c ∷ s) = elim (Bool-cases (is_space (code c))) [
  | inl space ↦ rw (space, if◌then◌else◌) (trim_start-StartsClean s)
  | inr other ↦ rw (other, if◌then◌else◌) other
]

trim_start-eq : (s : String) → StartsClean s → trim_start s ≡ s
unfolding trim_start
trim_start-eq [] h = refl
trim_start-eq (c ∷ s) h = rw (h, if◌then◌else◌)

close_end-StartsClean :
    (c : Char) (s : String) → is_space (code c) ≡ false → StartsClean (close_end c s)
close_end-StartsClean c [] h = rw (h, if◌then◌else◌) h
close_end-StartsClean c (d ∷ s) h = h

trim_end-StartsClean : (s : String) → StartsClean s → StartsClean (trim_end s)
unfolding trim_end
trim_end-StartsClean [] h = tt
trim_end-StartsClean (c ∷ s) h = close_end-StartsClean c (trim_end s) h

trim_end-close_end :
    (c : Char) (s : String) → trim_end s ≡ s → trim_end (close_end c s) ≡ close_end c s
unfolding trim_end
trim_end-close_end c [] h = elim (Bool-cases (is_space (code c))) [
  | inl space ↦ rw (space, if◌then◌else◌)
  | inr other ↦ rw (other, if◌then◌else◌) (rw (other, if◌then◌else◌))
]
trim_end-close_end c (d ∷ s) h = ap (close_end c) h

trim_end-trim_end : (s : String) → trim_end (trim_end s) ≡ trim_end s
unfolding trim_end
trim_end-trim_end [] = refl
trim_end-trim_end (c ∷ s) = trim_end-close_end c (trim_end s) (trim_end-trim_end s)

pub trim-trim : (s : String) → trim (trim s) ≡ trim s
unfolding trim
trim-trim s =
    ap trim_end (
      trim_start-eq (trim_end (trim_start s))
        (trim_end-StartsClean (trim_start s) (trim_start-StartsClean s)))
    ∙ trim_end-trim_end (trim_start s)
