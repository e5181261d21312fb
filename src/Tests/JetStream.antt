-- ===== src/Tests/JetStream.antt =====
-- Examples of the connection to JetStream and of its streams.
use polyglot_ticketing_v.Base.{
  ℕ, ◌≤◌, ◌<◌, ◌≡◌, refl, none, some, [], ◌∷◌, ok, err, str_eq, ltb, if◌then◌else◌, arith,
}
use polyglot_ticketing_v.Value.{Value, str}
use polyglot_ticketing_v.Expiration.Constants.{expiration_dead_letter_stream}
use polyglot_ticketing_v.Expiration.JetStream.{
  ensure_expiration_event_stream, ensure_expiration_dead_letter_stream,
}
use polyglot_ticketing_v.Expiration.JetStream.Streams.DeadLetter.{
  Covered, ensure_expiration_dead_letter_stream-covers,
}
use polyglot_ticketing_v.Expiration.JetStream.Connection.{
  Service, Attempt, disconnected, attempt, on_module_init,
}
use polyglot_ticketing_v.Expiration.JetStream.Connection.Startup.{on_module_init_retries}
use polyglot_ticketing_v.Tests.Samples.JetStream.{Streams, jet_stream}

-- A server with a dead letter stream that takes another subject only.
abbrev stale : Streams
stale name = if str_eq name expiration_dead_letter_stream then some ("dlq.other" ∷ []) else none

abbrev repaired : Streams
repaired = (ensure_expiration_dead_letter_stream jet_stream stale).1

ensure_expiration_dead_letter_stream-covers_example : Covered jet_stream stale repaired
unfolding ensure_expiration_dead_letter_stream
ensure_expiration_dead_letter_stream-covers_example =
    ensure_expiration_dead_letter_stream-covers jet_stream stale repaired refl

abbrev down : Attempt jet_stream
down = record { connect = err (str "no server"); jetstream_manager = ok tt; close = ok tt }

abbrev up : Attempt jet_stream
up = record { connect = ok 1; jetstream_manager = ok tt; close = ok tt }

-- NATS cannot be reached in the first two rounds.
abbrev rounds : ℕ → Attempt jet_stream
rounds k = if ltb k 2 then down else up

abbrev connected : Service jet_stream
connected = record { connection = some 1; client = some 1; manager = some 1 }

abbrev ensured : Streams
ensured =
    (ensure_expiration_dead_letter_stream jet_stream
      (ensure_expiration_event_stream jet_stream stale).1).1

rounds_down : (j : ℕ) → 0 ≤ j → j < 2 → (v : Value) × ((rounds j).connect ≡ err v)
rounds_down j lo hi = (str "no server", ground arith)

on_module_init_retries_example :
    on_module_init jet_stream 3 rounds 0 (disconnected jet_stream) stale
    ≡ some (ok tt, connected, ensured)
unfolding attempt ensure_expiration_event_stream ensure_expiration_dead_letter_stream
on_module_init_retries_example =
    on_module_init_retries jet_stream 2 rounds 0 2 connected stale ensured refl rounds_down refl
