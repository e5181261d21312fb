-- ===== src/Expiration/Consumer/Settling.antt =====
-- What one delivery does with its message.
use polyglot_ticketing_v.Base.{
  ℕ, ℤ, suc, ◌≡◌, ◌≢◌, ◌⊎◌, Bool, true, false, ◌&&◌, List, [], ◌∷◌, Result, ok, err, arith,
}
use polyglot_ticketing_v.Value.{Value}
use polyglot_ticketing_v.Expiration.Effects.{Effect, scheduled, parked, acked, naked, Run}
use polyglot_ticketing_v.Expiration.Handler.{Decoder, handle}
use polyglot_ticketing_v.Expiration.Consumer.{Environment, settle, handle_delivery}

-- The acknowledgements and refusals of a log.
abbrev pub settlements : List Effect → ℕ
settlements [] = 0
settlements (acked ∷ log) = suc (settlements log)
settlements (naked ∷ log) = suc (settlements log)
settlements (_ ∷ log) = settlements log

-- An acknowledgement comes only after a job is scheduled or the message is parked.
abbrev pub safe_from : Bool → List Effect → Bool
safe_from kept [] = true
safe_from kept (acked ∷ log) = kept && safe_from kept log
safe_from kept (scheduled job ∷ log) = safe_from true log
safe_from kept (parked class ∷ log) = safe_from true log
safe_from kept (_ ∷ log) = safe_from kept log

-- What the handler does: it returns with a job scheduled as its only effect, or throws with none.
abbrev pub IsHandled : Run (Unit {0}) → Type 0
IsHandled (ok done, scheduled job ∷ []) = Unit
IsHandled (err e, []) = Unit
IsHandled _ = ⊥

pub handle-IsHandled :
    (decoder : Decoder) (add : Result Value (Unit {0})) (now : ℤ) (payload : List ℕ)
    → IsHandled (handle decoder add now payload)
unfolding handle
handle-IsHandled decoder add now payload = ground arith

settle-safe :
    (env : Environment) (count : ℕ) (r : Run (Unit {0}))
    → IsHandled r
    → safe_from false (settle env count r).1 ≡ true
unfolding settle
settle-safe env count (ok tt, scheduled job ∷ []) h = ground arith
settle-safe env count (err e, []) h = ground arith
settle-safe env count _ h = absurd h

settle-settlements :
    (env : Environment) (count : ℕ) (r : Run (Unit {0}))
    → IsHandled r
    → (settlements (settle env count r).1 ≡ 1)
      ⊎ ((settlements (settle env count r).1 ≡ 0) × ((settle env count r).0 ≢ ok tt))
unfolding settle
settle-settlements env count (ok tt, scheduled job ∷ []) h = ground arith
settle-settlements env count (err e, []) h = ground arith
settle-settlements env count _ h = absurd h

module _ (decoder : Decoder) (env : Environment) (payload : List ℕ) (count : ℕ) where
  abbrev handled : Run (Unit {0})
  handled = handle decoder env.add env.now payload

  handled-IsHandled : IsHandled handled
  handled-IsHandled = handle-IsHandled decoder env.add env.now payload

  -- No delivery acknowledges its message before the job is scheduled or the message is in the dead
  -- letter queue, whatever the event holds and whichever calls throw.
  pub handle_delivery-safe : safe_from false (handle_delivery decoder env payload count).1 ≡ true
  unfolding handle_delivery
  handle_delivery-safe = settle-safe env count handled handled-IsHandled

  -- A delivery acknowledges or refuses its message exactly once, whichever calls throw on the way;
  -- or it does neither, and then it ends by throwing.
  pub handle_delivery-settlements :
      (settlements (handle_delivery decoder env payload count).1 ≡ 1)
      ⊎ ((settlements (handle_delivery decoder env payload count).1 ≡ 0)
          × ((handle_delivery decoder env payload count).0 ≢ ok tt))
  unfolding handle_delivery
  handle_delivery-settlements = settle-settlements env count handled handled-IsHandled
