-- ===== src/Expiration/ReplayCommand/Outcome.antt =====
-- What the command replays, and how it ends.
use polyglot_ticketing_v.Base.{
  ok_injective, err-ne-ok, ℕ, pos, negsuc, zero, suc, ◌≤◌, String, ◌≡◌, ◌↔◌, inl, inr, refl, sym,
  ap, ◌∙◌, subst, Bool, true, false, Bool-cases, not, ◌||◌, Option, none, some, List, [], ◌∷◌, any,
  Result, ok, err, str_eq, arith,
}
use polyglot_ticketing_v.Base.Text.{trim}
use polyglot_ticketing_v.Value.{Value}
use polyglot_ticketing_v.Platform.Numbers.{
  JsNumber, whole, not_whole, max_safe_integer, is_safe_integer, NumberApi,
}
use polyglot_ticketing_v.Expiration.ReplayCommand.{
  is_positive, required_sequence, Action, connected, replayed, wrote, drained, Calls, after_init,
  with_sequence, main, exit_code,
}

-- A sequence of a stream that a JavaScript number holds exactly.
abbrev pub IsSequence : JsNumber → Type 0
IsSequence s = (n : ℕ) × (s ≡ whole (pos n)) × (1 ≤ n) × (n ≤ max_safe_integer)

checked-IsSequence :
    (s : JsNumber) → (not (is_safe_integer s) || not (is_positive s)) ≡ false → IsSequence s
checked-IsSequence (whole (pos zero)) h = absurd (ground arith)
checked-IsSequence (whole (pos (suc n))) h = (suc n, refl, omega arith, ground arith)
checked-IsSequence (whole (negsuc n)) h = absurd (ground arith)
checked-IsSequence not_whole h = absurd (ground arith)

-- The variable is set, is not blank, and stands for the number, a sequence.
abbrev pub Reads : NumberApi → Option String → JsNumber → Type 0
Reads numbers value s =
    (text : String) × (value ≡ some text)
    × (str_eq (trim text) "" ≡ false)
    × (numbers.number text ≡ s)
    × IsSequence s

IsSequence-checked :
    (s : JsNumber) → IsSequence s → (not (is_safe_integer s) || not (is_positive s)) ≡ false
IsSequence-checked s (zero, same, low, high) = absurd (omega (arith, low))
IsSequence-checked s (suc n, same, low, high) =
    subst (λ x. (not (is_safe_integer x) || not (is_positive x)) ≡ false) (sym same)
      (ground (arith, high))

Reads-required_sequence :
    (numbers : NumberApi) (name : String) (value : Option String) (s : JsNumber)
    → Reads numbers value s
    → required_sequence numbers name value ≡ ok s
unfolding required_sequence
Reads-required_sequence numbers name value s (text, is_set, full, stands, sequence) =
    let checked =
      subst (λ x. (not (is_safe_integer x) || not (is_positive x)) ≡ false) (sym stands)
        (IsSequence-checked s sequence) in
    ap (λ v. required_sequence numbers name v) is_set ∙ rw (full, checked) (ap ok stands)

required_sequence-Reads :
    (numbers : NumberApi) (name : String) (value : Option String) (s : JsNumber)
    → required_sequence numbers name value ≡ ok s
    → Reads numbers value s
unfolding required_sequence
required_sequence-Reads numbers name none s h = absurd (ground arith)
required_sequence-Reads numbers name (some text) s h = elim (Bool-cases (str_eq (trim text) "")) [
  | inl blank ↦ absurd (ground (arith, blank))
  | inr full ↦
      let number = numbers.number text in
      elim (Bool-cases (not (is_safe_integer number) || not (is_positive number))) [
        | inl bad ↦ absurd (err-ne-ok (rw (full, bad) at h))
        | inr good ↦
            let stands = ok_injective (rw (full, good) at h) in
            (text, refl, full, stands, subst IsSequence stands (checked-IsSequence number good))
      ]
]

-- A replay that goes through: all that it does.
abbrev pub Replays : NumberApi → Calls → Option String → List Action → Type 0
Replays numbers calls value log =
    (s : JsNumber) × (source : ℕ) × Reads numbers value s
    × (calls.init ≡ ok tt)
    × (calls.replay s ≡ ok source)
    × (calls.shutdown ≡ ok tt)
    × (log ≡ connected ∷ replayed s ∷ wrote s source ∷ drained ∷ [])

abbrev Goes : Calls → JsNumber → List Action → Type 0
Goes calls s log =
    (source : ℕ) × (calls.init ≡ ok tt)
    × (calls.replay s ≡ ok source)
    × (calls.shutdown ≡ ok tt)
    × (log ≡ connected ∷ replayed s ∷ wrote s source ∷ drained ∷ [])

after_init-Goes :
    (calls : Calls) (s : JsNumber) (i : Result Value (Unit {0})) (r : Result Value ℕ)
    (d : Result Value (Unit {0}))
    → calls.init ≡ i
    → calls.replay s ≡ r
    → calls.shutdown ≡ d
    → exit_code (after_init calls s calls.init) ≡ 0
    → Goes calls s (after_init calls s calls.init).1
unfolding exit_code
after_init-Goes calls s (err e) r d hi hr hd h = absurd (ground (arith, rw hi at h))
after_init-Goes calls s (ok done) r (err e) hi hr hd h = absurd (ground (arith, rw (hi, hd) at h))
after_init-Goes calls s (ok done) (err e) (ok done') hi hr hd h =
    absurd (ground (arith, rw (hi, hr, hd) at h))
after_init-Goes calls s (ok done) (ok source) (ok done') hi hr hd h =
    (source, hi, hr, hd, rw (hi, hr, hd) refl)

-- The command ends with exit code 0 exactly where its variable is not blank and stands for a whole
-- number from 1 to 2^53 - 1, and connecting, replaying that sequence and shutting down all succeed;
-- then it has replayed that one message, has reported it, and has shut the connection down last.
pub main-Replays_iff :
    (numbers : NumberApi) (calls : Calls) (value : Option String)
    → (exit_code (main numbers calls value) ≡ 0)
      ↔ Replays numbers calls value (main numbers calls value).1
unfolding main exit_code
main-Replays_iff numbers calls value = (
  λ h. go (required_sequence numbers "DLQ_SEQUENCE" value) refl h,
  λ g.
      let (s, source, reads, i, r, d, log) = g in
      rw (Reads-required_sequence numbers "DLQ_SEQUENCE" value s reads, i, r, d) refl,
)
  where
    go :
        (q : Result Value JsNumber)
        → required_sequence numbers "DLQ_SEQUENCE" value ≡ q
        → exit_code (with_sequence calls q) ≡ 0
        → Replays numbers calls value (with_sequence calls q).1
    go (err e) read h = absurd (omega arith)
    go (ok s) read h =
        let (source, i, r, d, log) = after_init-Goes calls s _ _ _ refl refl refl h in
        (s, source, required_sequence-Reads numbers "DLQ_SEQUENCE" value s read, i, r, d, log)

abbrev pub is_connected : Action → Bool
is_connected connected = true
is_connected _ = false

abbrev pub is_drained : Action → Bool
is_drained drained = true
is_drained _ = false

after_init_drains :
    (calls : Calls) (s : JsNumber) (i : Result Value (Unit {0})) (r : Result Value ℕ)
    → calls.replay s ≡ r
    → calls.shutdown ≡ ok tt
    → any is_drained (after_init calls s i).1 ≡ any is_connected (after_init calls s i).1
after_init_drains calls s (err e) r hr d = refl
after_init_drains calls s (ok done) (err e) hr d = rw (hr, d) refl
after_init_drains calls s (ok done) (ok source) hr d = rw (hr, d) refl

-- A connection that is made is drained, also where the replay fails, unless draining itself fails.
pub main_drains :
    (numbers : NumberApi) (calls : Calls) (value : Option String)
    → calls.shutdown ≡ ok tt
    → any is_drained (main numbers calls value).1 ≡ any is_connected (main numbers calls value).1
unfolding main
main_drains numbers calls value d = go (required_sequence numbers "DLQ_SEQUENCE" value)
  where
    go :
        (q : Result Value JsNumber)
        → any is_drained (with_sequence calls q).1 ≡ any is_connected (with_sequence calls q).1
    go (err e) = refl
    go (ok s) = after_init_drains calls s calls.init (calls.replay s) refl d
