-- ===== src/Platform/Numbers.antt =====
-- JavaScript numbers, and `Number` on a text.
use polyglot_ticketing_v.Base.{ℕ, ℤ, pos, negsuc, String, Bool, false, leb, ◌^◌, ◌-◌, suc, ◌≡◌}

-- A whole number, or any other: a fraction, an infinity, NaN.
pub data JsNumber : Type 0 where
  whole : ℤ → JsNumber
  not_whole : JsNumber

-- `Number.MAX_SAFE_INTEGER`
abbrev pub max_safe_integer : ℕ
max_safe_integer = 2 ^ 53 - 1

abbrev pub magnitude : ℤ → ℕ
magnitude (pos n) = n
magnitude (negsuc n) = suc n

-- `Number.isSafeInteger(n)`
abbrev pub is_safe_integer : JsNumber → Bool
is_safe_integer (whole z) = leb (magnitude z) max_safe_integer
is_safe_integer not_whole = false

pub record NumberApi : Type 0 where
  -- `Number(text)`, and the decimal text of a natural number, which is read back.
  pub number : String → JsNumber
  pub decimal : ℕ → String
  pub number-empty : number "" ≡ whole (pos 0)
  pub number-decimal : (n : ℕ) → number (decimal n) ≡ whole (pos n)
