-- ===== src/Expiration/Consumer/Redelivery.antt =====
-- A message over its deliveries.
use polyglot_ticketing_v.Base.{
  ℕ, zero, suc, ◌+◌, ◌≤◌, ◌<◌, ◌≡◌, refl, sym, ap, ◌∙◌, Bool, true, false, List, [], ◌∷◌, ok, err,
  some, any, ltb, arith, if◌then◌else◌, Bool-cases, inl, inr,
}
use polyglot_ticketing_v.Value.{Value}
use polyglot_ticketing_v.Expiration.Effects.{invalid_event, other, scheduled, Run}
use polyglot_ticketing_v.Expiration.Handler.{Decoder, handle}
use polyglot_ticketing_v.Expiration.Consumer.{
  Environment, settle, handle_delivery, is_acked, deliver,
}
use polyglot_ticketing_v.Expiration.Consumer.Settling.{IsHandled, handle-IsHandled}

-- The message can be acknowledged and parked.
pub record CanSettle (env : Environment) : Type 0 where
  pub parks : env.park ≡ ok tt
  pub acks_handled : env.ack_handled ≡ ok tt
  pub acks_parked : env.ack_parked ≡ ok tt

settle-acked_of_last :
    (env : Environment) (count : ℕ) (r : Run (Unit {0}))
    → IsHandled r
    → CanSettle env
    → 5 < count
    → any is_acked (settle env count r).1 ≡ true
unfolding settle
settle-acked_of_last env count (ok tt, scheduled job ∷ []) h can last = ground arith
settle-acked_of_last env count (err e, []) h can last = ground arith
settle-acked_of_last env count _ h can last = absurd h

settle-naked_of_retryable :
    (env : Environment) (count : ℕ) (v : Value)
    → count ≤ 5
    → any is_acked (settle env count (err (other v), [])).1 ≡ false
unfolding settle
settle-naked_of_retryable env count v early = ground arith

settle-acked_of_invalid :
    (env : Environment) (count : ℕ)
    → CanSettle env
    → any is_acked (settle env count (err invalid_event, [])).1 ≡ true
unfolding settle
settle-acked_of_invalid env count can = ground arith

true-ne-false : true ≡ false → ⊥
true-ne-false e = cc

module _ (decoder : Decoder) (payload : List ℕ) (env : ℕ → Environment) where
  abbrev run_of : ℕ → Run (Unit {0})
  run_of k = handle decoder (env k).add (env k).now payload

  abbrev acks : ℕ → Bool
  acks k = any is_acked (handle_delivery decoder (env k) payload k).1

  deliver-suc :
      (fuel count : ℕ)
      → deliver decoder payload (suc fuel) env count
        ≡ (if acks count then some count else deliver decoder payload fuel env (count + 1))
  unfolding deliver
  deliver-suc fuel count = refl

  acks_lem : (k : ℕ) → acks k ≡ any is_acked (settle (env k) k (run_of k)).1
  unfolding handle_delivery
  acks_lem k = refl

  acks_of_last : (k : ℕ) → CanSettle (env k) → 5 < k → acks k ≡ true
  acks_of_last k can last =
      acks_lem k
      ∙ settle-acked_of_last (env k) k (run_of k)
          (handle-IsHandled decoder (env k).add (env k).now payload) can last

  not_last :
      (count : ℕ)
      → ((k : ℕ) → 5 < k → CanSettle (env k))
      → count ≤ 6
      → acks count ≡ false
      → count + 1 ≤ 6
  not_last count can early more = elim (Bool-cases (ltb 5 count)) [
    | inl last ↦
        let done : acks count ≡ true =
          acks_of_last count (can count (ground arith)) (ground arith) in
        absurd (true-ne-false (sym done ∙ more))
    | inr before ↦ ground arith
  ]

  acks_of_retryable : (k : ℕ) (v : Value) → run_of k ≡ (err (other v), []) → k ≤ 5 → acks k ≡ false
  acks_of_retryable k v fails early =
      acks_lem k ∙ rw fails (settle-naked_of_retryable (env k) k v early)

  deliver-ends :
      (fuel count : ℕ)
      → ((k : ℕ) → 5 < k → CanSettle (env k))
      → count + fuel ≡ 7
      → count ≤ 6
      → (k : ℕ) × (deliver decoder payload fuel env count ≡ some k) × (k ≤ 6)
  deliver-ends zero count can total early = absurd (omega arith)
  deliver-ends (suc fuel) count can total early = elim (Bool-cases (acks count)) [
    | inl done ↦ (count, deliver-suc fuel count ∙ rw done, early)
    | inr more ↦
        let later : count + 1 ≤ 6 = not_last count can early more in
        let (k, e, le) = deliver-ends fuel (count + 1) can (omega arith) later in
        (k, deliver-suc fuel count ∙ rw more e, le)
  ]

  deliver-retries :
      (fuel count : ℕ) (v : ℕ → Value)
      → ((k : ℕ) → run_of k ≡ (err (other (v k)), []))
      → ((k : ℕ) → 5 < k → CanSettle (env k))
      → count + fuel ≡ 7
      → count ≤ 6
      → deliver decoder payload fuel env count ≡ some 6
  deliver-retries zero count v fails can total early = absurd (omega arith)
  deliver-retries (suc fuel) count v fails can total early = elim (Bool-cases (ltb 5 count)) [
    | inl last ↦
        deliver-suc fuel count
        ∙ rw (acks_of_last count (can count (ground arith)) (ground arith))
            (ap some (let six : count ≡ 6 = ground arith in six))
    | inr before ↦
        deliver-suc fuel count
        ∙ rw (acks_of_retryable count (v count) (fails count) (ground arith))
            (deliver-retries fuel (count + 1) v fails can (omega arith) (ground arith))
  ]

-- A message is acknowledged at its sixth delivery at the latest, the first and five retries, where
-- from the sixth on it can be acknowledged and parked; whatever the event holds, and whatever fails
-- before.
pub deliver_ends :
    (decoder : Decoder) (payload : List ℕ) (env : ℕ → Environment)
    → ((k : ℕ) → 5 < k → CanSettle (env k))
    → (k : ℕ) × (deliver decoder payload 6 env 1 ≡ some k) × (k ≤ 6)
deliver_ends decoder payload env can =
    deliver-ends decoder payload env 6 1 can (omega arith) (omega arith)

-- A message whose handling keeps failing for another reason than an invalid event is delivered six
-- times before it is acknowledged, where from the sixth time on it can be acknowledged and parked.
pub deliver_retries :
    (decoder : Decoder) (payload : List ℕ) (env : ℕ → Environment) (v : ℕ → Value)
    → ((k : ℕ) → handle decoder (env k).add (env k).now payload ≡ (err (other (v k)), []))
    → ((k : ℕ) → 5 < k → CanSettle (env k))
    → deliver decoder payload 6 env 1 ≡ some 6
deliver_retries decoder payload env v fails can =
    deliver-retries decoder payload env 6 1 v fails can (omega arith) (omega arith)

-- A message with an invalid event is acknowledged at its first delivery, where that can acknowledge
-- and park it.
pub deliver_invalid :
    (decoder : Decoder) (payload : List ℕ) (env : ℕ → Environment) (fuel : ℕ)
    → handle decoder (env 1).add (env 1).now payload ≡ (err invalid_event, [])
    → CanSettle (env 1)
    → deliver decoder payload (suc fuel) env 1 ≡ some 1
deliver_invalid decoder payload env fuel invalid can =
    deliver-suc decoder payload env fuel 1
    ∙ rw (acks_lem decoder payload env 1, invalid, settle-acked_of_invalid (env 1) 1 can)
