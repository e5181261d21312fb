-- ===== src/Base/Text/Laws.antt =====
-- Splitting, joining and trimming a text.
use Prim.Native.Nat.{ℕ}
use Prim.Native.Char.{Char, code}
use Prim.Native.String.{String, [], ◌∷◌}
use mathlib.Core.Path.{◌≡◌, refl, ap, ◌∙◌}
use mathlib.Core.Logic.{◌≢◌, inl, inr}
use mathlib.Core.List.{List, [], ◌∷◌}
use native.Mathlib.Omega.{arith}
use text.Mathlib.TextEquality.{Char-path}
use text.Mathlib.TextLemmas.{nil-append, cons-append}
use polyglot_ticketing_v.Base.Tests.{◌==◌, if◌then◌else◌, Bool-cases, ==_iff}
use polyglot_ticketing_v.Base.Lists.{All}
use polyglot_ticketing_v.Base.Text.{
  append, is_space, trim_start, close_end, trim_end, trim, extend, split, join, MissesChar,
}

pub MissesChar-append :
    (sep : ℕ) (s t : String) → MissesChar sep s → MissesChar sep t → MissesChar sep (append s t)
MissesChar-append sep [] t hs ht = rw nil-append ht
MissesChar-append sep (c ∷ s) t (p, hs) ht = rw cons-append (p, MissesChar-append sep s t hs ht)

extend-keeps :
    (sep : ℕ) (c : Char) (parts : List String)
    → code c ≢ sep
    → All (MissesChar sep) parts
    → All (MissesChar sep) (extend c parts)
extend-keeps sep c [] p h = ((p, tt), tt)
extend-keeps sep c (part ∷ parts) p (h, hs) = ((p, h), hs)

-- No part of a split text holds the separator.
pub split-MissesChar : (sep : ℕ) (s : String) → All (MissesChar sep) (split sep s)
unfolding split
split-MissesChar sep [] = (tt, tt)
split-MissesChar sep (c ∷ s) =
    ground (arith, split-MissesChar sep s, extend-keeps sep c (split sep s))

-- Splitting at one character keeps another one out of the parts.
pub split_keeps-MissesChar :
    (sep other : ℕ) (s : String) → MissesChar other s → All (MissesChar other) (split sep s)
unfolding split
split_keeps-MissesChar sep other [] h = (tt, tt)
split_keeps-MissesChar sep other (c ∷ s) (p, h) =
    ground (arith, split_keeps-MissesChar sep other s h, extend-keeps other c (split sep s) p)

extend-join :
    (sep : String) (c : Char) (parts : List String) → join sep (extend c parts) ≡ c ∷ join sep parts
unfolding join
extend-join sep c [] = refl
extend-join sep c (part ∷ []) = refl
extend-join sep c (part ∷ next ∷ parts) = cons-append c part _

split-ne-nil : (sep : ℕ) (s : String) → split sep s ≢ []
unfolding split
split-ne-nil sep [] e = cc
split-ne-nil sep (c ∷ s) e = ground (arith, split-ne-nil sep s)

join-cons :
    (sep : String) (parts : List String)
    → parts ≢ []
    → join sep ("" ∷ parts) ≡ append sep (join sep parts)
unfolding join
join-cons sep [] h = absurd (h refl)
join-cons sep (part ∷ parts) h = nil-append _

-- Joining by the separator undoes the split.
pub join-split : (sep : Char) (s : String) → join (sep ∷ []) (split (code sep) s) ≡ s
unfolding split join
join-split sep [] = refl
join-split sep (c ∷ s) = elim (Bool-cases (code c == code sep)) [
  | inl same ↦
      rw (same, if◌then◌else◌)
        (join-cons (sep ∷ []) (split (code sep) s) (split-ne-nil (code sep) s)
          ∙ rw (cons-append, nil-append, join-split sep s, Char-path c sep ((==_iff _ _).0 same)))
  | inr other ↦
      rw (other, if◌then◌else◌)
        (extend-join (sep ∷ []) c (split (code sep) s)
          ∙ ap (λ (t : String). c ∷ t) (join-split sep s))
]

pub split-append :
    (sep : Char) (p s : String)
    → MissesChar (code sep) p
    → split (code sep) (append p (sep ∷ s)) ≡ p ∷ split (code sep) s
unfolding split
split-append sep [] s h = rw nil-append (ground arith)
split-append sep (c ∷ p) s (ne, h) = rw cons-append (ground (arith, split-append sep p s h))

pub split_of_MissesChar : (sep : ℕ) (p : String) → MissesChar sep p → split sep p ≡ p ∷ []
unfolding split
split_of_MissesChar sep [] h = refl
split_of_MissesChar sep (c ∷ p) (ne, h) = ground (arith, split_of_MissesChar sep p h)

module _ (sep : ℕ) where
  trim_start-MissesChar : (s : String) → MissesChar sep s → MissesChar sep (trim_start s)
  unfolding trim_start
  trim_start-MissesChar [] h = tt
  trim_start-MissesChar (c ∷ s) (p, h) = ground (arith, trim_start-MissesChar s h)

  close_end-MissesChar :
      (c : Char) (s : String) → code c ≢ sep → MissesChar sep s → MissesChar sep (close_end c s)
  close_end-MissesChar c [] p h = elim (Bool-cases (is_space (code c))) [
    | inl space ↦ rw (space, if◌then◌else◌) tt
    | inr other ↦ rw (other, if◌then◌else◌) (p, tt)
  ]
  close_end-MissesChar c (d ∷ s) p h = (p, h)

  trim_end-MissesChar : (s : String) → MissesChar sep s → MissesChar sep (trim_end s)
  unfolding trim_end
  trim_end-MissesChar [] h = tt
  trim_end-MissesChar (c ∷ s) (p, h) =
      close_end-MissesChar c (trim_end s) p (trim_end-MissesChar s h)

  -- Trimming brings in no character.
  pub trim-MissesChar : (s : String) → MissesChar sep s → MissesChar sep (trim s)
  unfolding trim
  trim-MissesChar s h = trim_end-MissesChar (trim_start s) (trim_start-MissesChar s h)

-- A space in front of a text does not change what trimming leaves.
pub trim-space : (c : Char) (s : String) → code c ≡ 32 → trim (c ∷ s) ≡ trim s
unfolding trim
trim-space c s e = rw (e, trim_start, is_space)
