-- ===== src/Base/Text.antt =====
-- The functions of JavaScript's `String` that the services call, over the characters of a text.
-- Where JavaScript counts UTF-16 units, the services use the counts only to cut a text next to
-- an ASCII character, and counting characters cuts it at the same place.
pub mod Laws
pub mod Cutting
pub mod Trimming
use Prim.Native.Nat.{ℕ, zero, suc}
use Prim.Native.Char.{Char, code}
use Prim.Native.String
use Prim.Native.String.{String, [], ◌∷◌}
use mathlib.Core.Bool.{Bool, true, false, ◌&&◌, ◌||◌}
use mathlib.Core.Logic.{◌≢◌}
use mathlib.Core.List.{List, [], ◌∷◌}
use mathlib.Core.Option.{Option, none, some}
use polyglot_ticketing_v.Base.Tests.{◌==◌, leb, if◌then◌else◌}

abbrev pub append : String → String → String
append s t = String.◌++◌ s t

-- The white space and line terminators that `trim` removes.
pub is_space : ℕ → Bool
is_space c =
    leb 9 c && leb c 13
    || c == 32
    || c == 160
    || c == 0x1680
    || leb 0x2000 c && leb c 0x200a
    || c == 0x2028
    || c == 0x2029
    || c == 0x202f
    || c == 0x205f
    || c == 0x3000
    || c == 0xfeff

unfoldable pub trim_start : String → String
unfolding is_space
trim_start [] = []
trim_start (c ∷ s) = let rest = trim_start s in if is_space (code c) then rest else c ∷ s

abbrev pub close_end : Char → String → String
close_end c [] = if is_space (code c) then [] else c ∷ []
close_end c (d ∷ s) = c ∷ d ∷ s

unfoldable pub trim_end : String → String
unfolding is_space
trim_end [] = []
trim_end (c ∷ s) = close_end c (trim_end s)

unfoldable pub trim : String → String
unfolding trim_start trim_end
trim s = trim_end (trim_start s)

abbrev pub extend : Char → List String → List String
extend c [] = (c ∷ []) ∷ []
extend c (part ∷ parts) = (c ∷ part) ∷ parts

-- `s.split(c)` for a separator of one character.
unfoldable pub split : ℕ → String → List String
split sep [] = "" ∷ []
split sep (c ∷ s) = let rest = split sep s in if code c == sep then "" ∷ rest else extend c rest

-- `parts.join(sep)`
unfoldable pub join : String → List String → String
join sep [] = ""
join sep (part ∷ []) = part
join sep (part ∷ next ∷ parts) = append part (append sep (join sep (next ∷ parts)))

-- `s.startsWith(prefix)`, and the rest of the text.
unfoldable pub strip_prefix : String → String → Option String
strip_prefix [] s = some s
strip_prefix (_ ∷ _) [] = none
strip_prefix (p ∷ prefix) (c ∷ s) = if code p == code c then strip_prefix prefix s else none

abbrev pub is_some {ℓ} : {A : Type ℓ} → Option A → Bool
is_some none = false
is_some (some a) = true

unfoldable pub starts_with : String → String → Bool
unfolding strip_prefix
starts_with prefix s = is_some (strip_prefix prefix s)

-- `s.slice(n)`
unfoldable pub slice_from : ℕ → String → String
slice_from zero s = s
slice_from (suc n) [] = []
slice_from (suc n) (c ∷ s) = slice_from n s

-- `s.slice(0, n)`
unfoldable pub slice_to : ℕ → String → String
slice_to zero s = []
slice_to (suc n) [] = []
slice_to (suc n) (c ∷ s) = c ∷ slice_to n s

abbrev pub bump : Option ℕ → Option ℕ
bump none = none
bump (some n) = some (suc n)

-- `s.indexOf(c)`; `none` is -1.
unfoldable pub index_of : ℕ → String → Option ℕ
index_of sep [] = none
index_of sep (c ∷ s) = let rest = index_of sep s in if code c == sep then some 0 else bump rest

abbrev pub count : String → ℕ
count [] = 0
count (c ∷ s) = suc (count s)

-- Every character of the text satisfies the test.
abbrev pub every : (ℕ → Bool) → String → Bool
every p [] = true
every p (c ∷ s) = p (code c) && every p s

abbrev pub MissesChar : ℕ → String → Type 0
MissesChar sep [] = Unit
MissesChar sep (c ∷ s) = (code c ≢ sep) × MissesChar sep s
