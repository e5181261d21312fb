-- ===== src/Tests/Samples/TicketTexts.antt =====
-- Tickets as texts: two numbers in unary before the title, and the engine that reads them.
use Prim.Native.String.{[], ◌∷◌}
use polyglot_ticketing_v.Base.{
  ℕ, zero, suc, pos, Char, code, String, ◌≡◌, refl, ap, ◌∙◌, false, some, str_eq, eq_iff, ◌==◌,
  Bool-cases, inl, inr, if◌then◌else◌, arith,
}
use polyglot_ticketing_v.Base.Text.{count}
use polyglot_ticketing_v.Value.{Value, obj, entry, end, str, num}
use polyglot_ticketing_v.Stress.{Engine, Config, body_of}
use polyglot_ticketing_v.Tests.Samples.Node.{unary}

abbrev pub tally : ℕ → String → String
tally zero rest = "," ∷ rest
tally (suc n) rest = "1" ∷ tally n rest

abbrev pub bump : ℕ × String → ℕ × String
bump (n, rest) = (suc n, rest)

abbrev pub read_tally : String → ℕ × String
read_tally [] = (0, [])
read_tally (c ∷ s) = let more = read_tally s in if code c == b'1' then bump more else (0, s)

pub read_tally-tally : (n : ℕ) (rest : String) → read_tally (tally n rest) ≡ (n, rest)
read_tally-tally zero rest = refl
read_tally-tally (suc n) rest = ap bump (read_tally-tally n rest)

abbrev pub name_of : ℕ → String
name_of n = "1" ∷ unary n

abbrev pub document : ℕ → ℕ → String → Value
document n price title =
    obj (
      entry "id" (str (name_of n))
        (entry "price" (num (pos price)) (entry "title" (str title) end)))

abbrev pub text_of_ticket : ℕ → ℕ → String → String
text_of_ticket n price title = tally n (tally price title)

abbrev pub parse_rest : ℕ → ℕ × String → Value
parse_rest n (price, title) = document n price title

abbrev pub parse_first : ℕ × String → Value
parse_first (n, rest) = parse_rest n (read_tally rest)

abbrev pub engine : Engine
engine = record {
  json = record { parse = λ text. some (parse_first (read_tally text)); stringify = λ v. "{...}" };
  text_of = λ v. "error";
  decimal = unary;
  encode_uri_component = λ s. s;
}

abbrev pub config : Config
config = record { cookie = "session"; limit = 2; tickets_url = "" }

pub cons_full : (c : Char) (s : String) → str_eq (c ∷ s) "" ≡ false
cons_full c s = elim (Bool-cases (str_eq (c ∷ s) "")) [
  | inl empty ↦ absurd (omega (arith, ap count ((eq_iff (c ∷ s) "").0 empty)))
  | inr full ↦ full
]

pub tally_full : (n : ℕ) (rest : String) → str_eq (tally n rest) "" ≡ false
tally_full zero rest = cons_full "," rest
tally_full (suc n) rest = cons_full "1" (tally n rest)

pub parse-text_of_ticket :
    (n price : ℕ) (title : String)
    → body_of engine (text_of_ticket n price title) ≡ document n price title
parse-text_of_ticket n price title = rw (tally_full n (tally price title)) (
    ap parse_first (read_tally-tally n (tally price title))
    ∙ ap (parse_rest n) (read_tally-tally price title))
