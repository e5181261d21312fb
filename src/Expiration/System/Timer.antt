-- ===== src/Expiration/System/Timer.antt =====
-- What the service promises, without queue, messages and retries: a clock with a deadline for each
-- order, set once, and the completions, none of which comes before its deadline.
use polyglot_ticketing_v.Base.{
  ℕ, ℤ, shift, is_le, ◌≡◌, String, true, Option, none, some, List, ◌∷◌, str_eq, if◌then◌else◌,
}

pub record Timer : Type 0 where
  pub now : ℤ
  pub deadline : String → Option ℤ
  pub completed : List (ℤ × String)

abbrev pub set : String → ℤ → (String → Option ℤ) → String → Option ℤ
set id t deadline j = if str_eq j id then some t else deadline j

pub data Move (s : Timer) : Timer → Type 0 where
  wait : (n : ℕ) → Move s (record s { now = shift s.now n })
  -- An order gets a deadline, not in the past, where it has none.
  arm :
      (id : String) (t : ℤ)
      → s.deadline id ≡ none
      → is_le s.now t ≡ true
      → Move s (record s { deadline = set id t s.deadline })
  -- An order is completed from its deadline on.
  complete :
      (id : String) (t : ℤ)
      → s.deadline id ≡ some t
      → is_le t s.now ≡ true
      → Move s (record s { completed = (s.now, id) ∷ s.completed })

pub data Moves (s : Timer) : Timer → Type 0 where
  start : Moves s s
  later : {t u : Timer} → Moves s t → Move t u → Moves s u
