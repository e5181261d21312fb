-- ===== src/Platform/JetStream.antt =====
-- The stream and consumer managers of @nats-io/jetstream, as apps/expiration uses them. A call
-- returns or throws, and passes the server on: other clients may act on it at every call.
use polyglot_ticketing_v.Base.{ℕ, String, ◌≡◌, Option, some, List, ok}
use polyglot_ticketing_v.Base.Calls
pub use polyglot_ticketing_v.Base.Calls.{pure, throw, and_then, ◌>>=◌, ◌>>◌, or_handle, catching}
use polyglot_ticketing_v.Value.{Value}

-- The options of a stream that the service sets or reads.
pub record StreamConfig : Type 0 where
  pub name : String
  pub subjects : List String
  pub retention : String
  pub storage : String
  pub duplicate_window : Option ℕ
  pub max_age : Option ℕ

pub record ConsumerConfig : Type 0 where
  pub durable_name : String
  pub filter_subject : String
  pub ack_policy : String
  pub deliver_policy : String

-- A `JetStreamApiError` with one of two codes, or any other error.
pub data CallError : Type 0 where
  stream_not_found consumer_not_found : CallError
  failed : Value → CallError

abbrev pub Call : Type 0 → Type 0 → Type 0
Call S A = Calls.Call CallError S A

pub record JetStreamApi : Type 1 where
  pub Server : Type 0
  pub Connection : Type 0
  -- The subjects of the stream that the server has under a name.
  pub subjects_of : Server → String → Option (List String)
  -- `manager.streams`
  pub info : String → Call Server StreamConfig
  pub add : StreamConfig → Call Server (Unit {0})
  pub update : String → StreamConfig → Call Server (Unit {0})
  -- `manager.consumers`, and `client.consumers.get`
  pub consumer_info : String → String → Call Server (Unit {0})
  pub add_consumer : String → ConsumerConfig → Call Server (Unit {0})
  pub get_consumer : String → String → Call Server (Unit {0})
  -- `nanos(milliseconds)`
  pub nanos : ℕ → ℕ
  -- A call that returns has read or written the stream as the server then has it.
  pub info-ok :
      (n : String) (s t : Server) (c : StreamConfig)
      → info n s ≡ (ok c, t)
      → subjects_of t n ≡ some c.subjects
  pub add-ok :
      (c : StreamConfig) (s t : Server)
      → add c s ≡ (ok tt, t)
      → subjects_of t c.name ≡ some c.subjects
  pub update-ok :
      (n : String) (c : StreamConfig) (s t : Server)
      → update n c s ≡ (ok tt, t)
      → subjects_of t n ≡ some c.subjects
