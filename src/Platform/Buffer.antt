-- ===== src/Platform/Buffer.antt =====
-- `Buffer.from` and `timingSafeEqual` of Node, over texts without lone surrogates.
use polyglot_ticketing_v.Base.{ℕ, String, Bool, true, ◌≡◌, ◌↔◌, Result, ok}
use polyglot_ticketing_v.Value.{Value}

pub record BufferApi : Type 1 where
  pub Buffer : Type 0
  pub from : String → Buffer
  pub length : Buffer → ℕ
  -- It throws where the lengths differ.
  pub timing_safe_equal : Buffer → Buffer → Result Value Bool
  pub from_injective : (s t : String) → from s ≡ from t → s ≡ t
  pub timing_safe_equal-ok :
      (a b : Buffer)
      → length a ≡ length b
      → (r : Bool) × (timing_safe_equal a b ≡ ok r) × ((r ≡ true) ↔ (a ≡ b))
