-- ===== src/Expiration/Effects.antt =====
-- What the service does to the world, as a log, and computations that keep one. A call that throws
-- leaves no entry. The values that are thrown are an invalid event, `InvalidOrderCreatedEvent`, and
-- any other value.
use polyglot_ticketing_v.Base.{ℕ, String, Bool, List, [], ◌∷◌, ◌++◌, Result, ok, err}
use polyglot_ticketing_v.Value.{Value}

pub data Failure : Type 0 where
  invalid_event : Failure
  other : Value → Failure

-- A job of the queue, with the options of `queue.add`.
pub record Job : Type 0 where
  pub name : String
  pub order_id : String
  pub attempts : ℕ
  pub backoff_type : String
  pub backoff_delay : ℕ
  pub delay : ℕ
  pub job_id : String
  pub remove_on_complete : Bool
  pub remove_on_fail : Bool

-- An ExpirationComplete event, as it is published: its subject, the fields of its payload (without
-- the time of day that it carries) and the identity by which JetStream drops duplicates.
pub record Message : Type 0 where
  pub subject : String
  pub event_id : String
  pub order_id : String
  pub message_id : String

pub data Effect : Type 0 where
  scheduled : Job → Effect
  parked : String → Effect
  published : Message → Effect
  acked naked : Effect
  observed : String → Effect

-- A computation that returns or throws, and the log of what it did.
abbrev pub Run {ℓ} : Type ℓ → Type ℓ
Run A = Result Failure A × List Effect

abbrev pub pure {ℓ} : {A : Type ℓ} → A → Run A
pure a = (ok a, [])

abbrev pub throw {ℓ} : {A : Type ℓ} → Failure → Run A
throw e = (err e, [])

-- A call with one effect, where it does not throw.
abbrev pub perform : Effect → Result Value (Unit {0}) → Run (Unit {0})
perform effect (ok done) = (ok tt, effect ∷ [])
perform effect (err e) = (err (other e), [])

infixl 5 ◌>>=◌ ◌>>◌
abbrev pub ◌>>=◌ {ℓ κ} : {A : Type ℓ} {B : Type κ} → Run A → (A → Run B) → Run B
(ok a, log) >>= f = let (r, more) = f a in (r, log ++ more)
(err e, log) >>= f = (err e, log)

abbrev pub ◌>>◌ {ℓ κ} : {A : Type ℓ} {B : Type κ} → Run A → Run B → Run B
m >> k = m >>= λ _. k

-- `try { m } catch (error) { handler(error) }`
abbrev pub catching {ℓ} : {A : Type ℓ} → Run A → (Failure → Run A) → Run A
catching (ok a, log) handler = (ok a, log)
catching (err e, log) handler = let (r, more) = handler e in (r, log ++ more)
