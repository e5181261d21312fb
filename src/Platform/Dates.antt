-- ===== src/Platform/Dates.antt =====
-- `Date` and the doubles it is made from, as apps/identity and apps/api-gateway use them.
use polyglot_ticketing_v.Base.{ℕ, ◌+◌, ◌*◌, ◌≤◌, ◌≡◌, ◌≢◌, ℤ, pos, String, Option}

-- The last millisecond that a `Date` can hold.
abbrev pub last_time : ℕ
last_time = 8_640_000_000_000_000

-- The last whole number up to which doubles are exact.
abbrev pub max_exact : ℕ
max_exact = 9_007_199_254_740_991

pub record DateApi : Type 1 where
  pub Double : Type 0
  pub number : ℤ → Double
  pub times : Double → Double → Double
  pub plus : Double → Double → Double
  pub over : Double → Double → Double
  -- `new Date(milliseconds).getTime()`, truncated to a whole millisecond.
  pub time_of : Double → ℤ
  -- A product, a sum or a quotient that is whole is exact in this range.
  pub times_whole :
      (m n : ℕ) → m * n ≤ max_exact → times (number (pos m)) (number (pos n)) ≡ number (pos (m * n))
  pub plus_whole :
      (m n : ℕ) → m + n ≤ max_exact → plus (number (pos m)) (number (pos n)) ≡ number (pos (m + n))
  pub over_whole :
      (m n : ℕ)
      → n ≢ 0
      → m * n ≤ max_exact
      → over (number (pos (m * n))) (number (pos n)) ≡ number (pos m)
  pub time_of_whole : (t : ℕ) → t ≤ last_time → time_of (number (pos t)) ≡ pos t
  -- `toISOString`, which throws on an invalid date.
  pub to_iso_string : ℤ → Option String

-- `{ seconds, nanos }`, the seconds as the number that their text or long stands for.
pub record Timestamp : Type 0 where
  pub seconds : ℤ
  pub nanos : ℤ
