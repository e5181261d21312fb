-- ===== src/Base/Int.antt =====
-- Whole JavaScript numbers with a sign.
use Prim.Native.Nat.{ℕ, zero, suc, ◌+◌, ◌-◌, ◌*◌, ◌/◌, ◌%◌}
use mathlib.Core.Bool.{Bool, true, false}
use polyglot_ticketing_v.Base.Tests.{leb, ◌==◌, if◌then◌else◌}

-- `negsuc n` is -(n + 1).
pub data ℤ : Type 0 where
  pos : ℕ → ℤ
  negsuc : ℕ → ℤ

-- `z === n`, `n <= z` and `z < n` for a natural number n.
abbrev pub is_nat : ℕ → ℤ → Bool
is_nat n (pos m) = m == n
is_nat n (negsuc m) = false

abbrev pub at_least : ℕ → ℤ → Bool
at_least n (pos m) = leb n m
at_least n (negsuc m) = false

abbrev pub below : ℕ → ℤ → Bool
below n (pos m) = leb (suc m) n
below n (negsuc m) = true

-- -n
abbrev pub negate : ℕ → ℤ
negate zero = pos 0
negate (suc n) = negsuc n

-- `z % k`, which has the sign of z.
abbrev pub remainder : ℤ → ℕ → ℤ
remainder (pos n) k = pos (n % k)
remainder (negsuc n) k = negate (suc n % k)

-- `Math.floor(z / k)`
abbrev pub floor_div : ℤ → ℕ → ℤ
floor_div (pos n) k = pos (n / k)
floor_div (negsuc n) k = negsuc (n / k)

-- `z * k`
abbrev pub scale : ℤ → ℕ → ℤ
scale (pos n) k = pos (n * k)
scale (negsuc n) k = negate (suc n * k)

-- `Math.max(0, a - b)`
abbrev pub monus : ℤ → ℤ → ℕ
monus (pos a) (pos b) = a - b
monus (pos a) (negsuc b) = a + suc b
monus (negsuc a) (pos b) = 0
monus (negsuc a) (negsuc b) = b - a

-- `z + n`
abbrev pub shift : ℤ → ℕ → ℤ
shift (pos a) n = pos (a + n)
shift (negsuc a) n = if leb (suc a) n then pos (n - suc a) else negsuc (a - n)

-- a ≤ b
abbrev pub is_le : ℤ → ℤ → Bool
is_le (pos a) (pos b) = leb a b
is_le (pos a) (negsuc b) = false
is_le (negsuc a) (pos b) = true
is_le (negsuc a) (negsuc b) = leb b a
