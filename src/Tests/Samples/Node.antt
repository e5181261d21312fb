-- ===== src/Tests/Samples/Node.antt =====
-- Node's buffers as texts, and numbers that are written in unary.
use Prim.Native.String.{[], ◌∷◌}
use polyglot_ticketing_v.Base.{
  ℕ, zero, suc, pos, String, ◌≡◌, ◌↔◌, refl, ap, Bool, true, Result, ok, err, str_eq, eq_iff, ◌==◌,
  ==_iff, if◌then◌else◌,
}
use polyglot_ticketing_v.Base.Text.{count}
use polyglot_ticketing_v.Value.{Value, str}
use polyglot_ticketing_v.Platform.Buffer.{BufferApi}
use polyglot_ticketing_v.Platform.Numbers.{whole, NumberApi}

abbrev compare_texts : String → String → Result Value Bool
compare_texts a b = if count a == count b then ok (str_eq a b) else err (str "different lengths")

pub compare_texts-ok :
    (a b : String)
    → count a ≡ count b
    → (r : Bool) × (compare_texts a b ≡ ok r) × ((r ≡ true) ↔ (a ≡ b))
compare_texts-ok a b same = (str_eq a b, rw ((==_iff (count a) (count b)).1 same) refl, eq_iff a b)

abbrev pub buffers : BufferApi
buffers = record {
  Buffer = String;
  from = λ s. s;
  length = count;
  timing_safe_equal = compare_texts;
  from_injective = λ s t h. h;
  timing_safe_equal-ok = compare_texts-ok;
}

abbrev pub unary : ℕ → String
unary zero = []
unary (suc n) = "1" ∷ unary n

pub count-unary : (n : ℕ) → count (unary n) ≡ n
count-unary zero = refl
count-unary (suc n) = ap suc (count-unary n)

abbrev pub numbers : NumberApi
numbers = record {
  number = λ s. whole (pos (count s));
  decimal = unary;
  number-empty = refl;
  number-decimal = λ n. ap (λ m. whole (pos m)) (count-unary n);
}
