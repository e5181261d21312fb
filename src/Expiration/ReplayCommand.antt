-- ===== src/Expiration/ReplayCommand.antt =====
-- The command apps/expiration/src/expiration/replay-expiration-dlq.ts, which replays one message of
-- the dead letter queue. `Number` is an interface; the calls of the JetStream service
-- have their outcomes as arguments.
pub mod Outcome
use polyglot_ticketing_v.Base.{
  ℕ, ℤ, pos, negsuc, zero, suc, String, Bool, true, false, not, ◌||◌, Option, none, some, List, [],
  ◌∷◌, ◌++◌, Result, ok, err, str_eq, leb, if◌then◌else◌,
}
use polyglot_ticketing_v.Base.Text.{append, trim}
use polyglot_ticketing_v.Value.{Value, obj, str, entry, end}
use polyglot_ticketing_v.Platform.Numbers.{JsNumber, whole, not_whole, is_safe_integer, NumberApi}

abbrev pub new_error : String → Value
new_error message = obj (entry "message" (str message) end)

-- `sequence <= 0` for a whole number.
abbrev pub is_positive : JsNumber → Bool
is_positive (whole (pos (suc n))) = true
is_positive _ = false

-- `requiredSequence`, for the value of the variable.
unfoldable pub required_sequence : NumberApi → String → Option String → Result Value JsNumber
unfolding trim
required_sequence numbers name none = err (new_error (append name " is required"))
required_sequence numbers name (some value) =
    if str_eq (trim value) ""
    then err (new_error (append name " is required"))
    else (let sequence = numbers.number value in
        if not (is_safe_integer sequence) || not (is_positive sequence)
        then err (new_error (append name " must be a positive integer"))
        else ok sequence)

-- What the command does, in order.
pub data Action : Type 0 where
  connected : Action
  replayed : JsNumber → Action
  wrote : JsNumber → ℕ → Action
  drained : Action

-- The outcomes of `onModuleInit`, of `replayExpirationDeadLetter` for a sequence, which is the
-- sequence of the replayed event, and of `onApplicationShutdown`.
pub record Calls : Type 0 where
  pub init : Result Value (Unit {0})
  pub replay : JsNumber → Result Value ℕ
  pub shutdown : Result Value (Unit {0})

abbrev pub Run : Type 0
Run = Result Value (Unit {0}) × List Action

-- `finally { await jetStream.onApplicationShutdown(); }`
abbrev pub finally_shut_down : Result Value (Unit {0}) → Run → Run
finally_shut_down (err e) (r, log) = (err e, log)
finally_shut_down (ok done) (r, log) = (r, log ++ drained ∷ [])

abbrev pub after_replay : JsNumber → Result Value ℕ → Run
after_replay sequence (err e) = (err e, [])
after_replay sequence (ok source) = (ok tt, replayed sequence ∷ wrote sequence source ∷ [])

abbrev pub after_init : Calls → JsNumber → Result Value (Unit {0}) → Run
after_init calls sequence (err e) = (err e, [])
after_init calls sequence (ok done) =
    let (r, log) =
      finally_shut_down calls.shutdown (after_replay sequence (calls.replay sequence)) in
    (r, connected ∷ log)

abbrev pub with_sequence : Calls → Result Value JsNumber → Run
with_sequence calls (err e) = (err e, [])
with_sequence calls (ok sequence) = after_init calls sequence calls.init

-- `main`, for the value of `DLQ_SEQUENCE`.
unfoldable pub main : NumberApi → Calls → Option String → Run
unfolding required_sequence
main numbers calls dlq_sequence =
    with_sequence calls (required_sequence numbers "DLQ_SEQUENCE" dlq_sequence)

-- `process.exitCode`
unfoldable pub exit_code : Run → ℕ
exit_code (ok done, log) = 0
exit_code (err e, log) = 1
