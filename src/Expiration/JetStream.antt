-- ===== src/Expiration/JetStream.antt =====
-- The streams and the consumer that the service needs, and its connection:
-- apps/expiration/src/expiration/jetstream.service.ts.
pub mod Streams
pub mod Connection
use polyglot_ticketing_v.Base.{
  ℕ, ◌*◌, String, Bool, true, false, not, none, some, List, [], ◌∷◌, ◌++◌, contains, Result, ok,
  err, if◌then◌else◌,
}
use polyglot_ticketing_v.Platform.JetStream.{
  StreamConfig, ConsumerConfig, CallError, stream_not_found, consumer_not_found, failed, Call, pure,
  throw, ◌>>=◌, ◌>>◌, catching, JetStreamApi, and_then, or_handle,
}
use polyglot_ticketing_v.Expiration.Constants.{
  expiration_events_stream, expiration_dead_letter_stream, order_created_dead_letter_subject,
  orders_events_stream, order_created_durable_name, order_created_subject,
}

abbrev pub dead_letter_retention_milliseconds : ℕ
dead_letter_retention_milliseconds = 7 * 24 * 60 * 60 * 1_000

abbrev pub is_stream_not_found : CallError → Bool
is_stream_not_found stream_not_found = true
is_stream_not_found _ = false

abbrev pub is_consumer_not_found : CallError → Bool
is_consumer_not_found consumer_not_found = true
is_consumer_not_found _ = false

-- `RetentionPolicy.Limits` and `StorageType.File`.
abbrev pub expiration_events_config : StreamConfig
expiration_events_config = record {
  name = expiration_events_stream;
  subjects = "expiration.>" ∷ [];
  retention = "limits";
  storage = "file";
  duplicate_window = none;
  max_age = none;
}

-- `AckPolicy.Explicit` and `DeliverPolicy.All`.
abbrev pub order_created_consumer_config : ConsumerConfig
order_created_consumer_config = record {
  durable_name = order_created_durable_name;
  filter_subject = order_created_subject;
  ack_policy = "explicit";
  deliver_policy = "all";
}

module _ (api : JetStreamApi) where
  open api use {Server, info, add, update, consumer_info, add_consumer, get_consumer, nanos}

  abbrev pub dead_letter_config : StreamConfig
  dead_letter_config = record {
    name = expiration_dead_letter_stream;
    subjects = order_created_dead_letter_subject ∷ [];
    retention = "limits";
    storage = "file";
    duplicate_window = some (nanos dead_letter_retention_milliseconds);
    max_age = some (nanos dead_letter_retention_milliseconds);
  }

  -- The second `try` of both functions: where the creation fails, another instance may have made
  -- the stream meanwhile.
  unfoldable pub add_or_info : StreamConfig → Call Server (Unit {0})
  add_or_info config =
      catching (add config) λ error. catching (do info config.name; pure tt) (λ _. throw error)

  -- A `return` in the first `try` leaves the function; only the `catch` goes on.
  unfoldable pub ensure_expiration_event_stream : Call Server (Unit {0})
  unfolding add_or_info
  ensure_expiration_event_stream =
      catching (do info expiration_events_stream; pure tt)
        λ error.
          if is_stream_not_found error then add_or_info expiration_events_config else throw error

  -- The configuration with the dead letter subject.
  abbrev pub with_dead_letter_subject : StreamConfig → StreamConfig
  with_dead_letter_subject config = record config {
    subjects = config.subjects ++ order_created_dead_letter_subject ∷ [];
  }

  abbrev pub update_subjects : StreamConfig → Call Server (Unit {0})
  update_subjects config =
      if contains config.subjects order_created_dead_letter_subject
      then pure tt
      else update expiration_dead_letter_stream (with_dead_letter_subject config)

  unfoldable pub ensure_expiration_dead_letter_stream : Call Server (Unit {0})
  unfolding add_or_info
  ensure_expiration_dead_letter_stream =
      catching (do config ← info expiration_dead_letter_stream; update_subjects config)
        λ error. if is_stream_not_found error then add_or_info dead_letter_config else throw error
