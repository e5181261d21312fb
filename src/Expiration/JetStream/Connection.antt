-- ===== src/Expiration/JetStream/Connection.antt =====
-- The connection of the service, and the loop of `onModuleInit` that makes it:
-- apps/expiration/src/expiration/jetstream.service.ts. A connection, and what `connect`,
-- `jetstreamManager` and `close` do, are third-party: each attempt has their outcomes.
pub mod Startup
use polyglot_ticketing_v.Base.{
  ℕ, zero, suc, String, if◌then◌else◌, Option, none, some, Result, ok, err,
}
use polyglot_ticketing_v.Value.{Value, obj, str, entry, end}
use polyglot_ticketing_v.Platform.JetStream.{
  CallError, failed, JetStreamApi, and_then, or_handle, Call, throw, catching, ◌>>=◌, ◌>>◌,
}
use polyglot_ticketing_v.Expiration.JetStream.{
  is_consumer_not_found, order_created_consumer_config, ensure_expiration_event_stream,
  ensure_expiration_dead_letter_stream,
}
use polyglot_ticketing_v.Expiration.Constants.{orders_events_stream, order_created_durable_name}

abbrev pub not_connected : String → CallError
not_connected message = failed (obj (entry "message" (str message) end))

module _ (api : JetStreamApi) where
  open api use {Server, Connection, consumer_info, add_consumer, get_consumer}

  -- The fields of `JetStreamService`. The client and the manager are those of a connection.
  pub record Service : Type 0 where
    pub connection : Option Connection
    pub client : Option Connection
    pub manager : Option Connection

  -- The outcomes of the calls of one attempt.
  pub record Attempt : Type 0 where
    pub connect : Result Value Connection
    pub jetstream_manager : Result Value (Unit {0})
    pub close : Result Value (Unit {0})

  abbrev pub disconnected : Service
  disconnected = record { connection = none; client = none; manager = none }

  unfoldable pub require_client : Service → Result CallError Connection
  require_client service = elim service.client [
    | none ↦ err (not_connected "JetStream client is not connected.")
    | some c ↦ ok c
  ]

  unfoldable pub require_manager : Service → Result CallError Connection
  require_manager service = elim service.manager [
    | none ↦ err (not_connected "JetStream manager is not connected.")
    | some c ↦ ok c
  ]

  abbrev pub lift {ℓ} : {A : Type ℓ} → Result CallError A → Server → Result CallError A × Server
  lift r s = (r, s)

  unfoldable pub order_created_consumer : Service → Call Server (Unit {0})
  unfolding require_client require_manager
  order_created_consumer service = do
    lift (require_manager service)
    catching (consumer_info orders_events_stream order_created_durable_name) λ error.
        if is_consumer_not_found error
        then add_consumer orders_events_stream order_created_consumer_config
        else throw error
    lift (require_client service)
    get_consumer orders_events_stream order_created_durable_name

  -- The result of the streams' calls, with the service as it is by then.
  abbrev with_service :
      Service
      → Result CallError (Unit {0}) × Server
      → Result CallError (Unit {0}) × Service × Server
  with_service service (r, s) = (r, service, s)

  -- Both functions of the streams start with `requireManager`.
  abbrev pub ensure_streams : Service → Call Server (Unit {0})
  ensure_streams service = do
    lift (require_manager service)
    ensure_expiration_event_stream api
    lift (require_manager service)
    ensure_expiration_dead_letter_stream api

  abbrev managed :
      Result Value (Unit {0})
      → Service
      → Connection
      → Server
      → Result CallError (Unit {0}) × Service × Server
  managed (err v) service c s =
      (err (failed v), record service { connection = some c; client = some c }, s)
  managed (ok done) service c s =
      let connected = record service { connection = some c; client = some c; manager = some c } in
      with_service connected (ensure_streams connected s)

  -- The `try` of one round.
  unfoldable pub attempt :
      Attempt → Service → Server → Result CallError (Unit {0}) × Service × Server
  unfolding ensure_expiration_event_stream ensure_expiration_dead_letter_stream require_manager
  attempt env service s = elim env.connect [
    | err v ↦ (err (failed v), service, s)
    | ok c ↦ managed env.jetstream_manager service c s
  ]

  -- `await this.connection?.close()`
  abbrev pub close_connection : Attempt → Service → Result Value (Unit {0})
  close_connection env service = elim service.connection [ none ↦ ok tt | some c ↦ env.close ]

  -- `await this.connection?.drain()`, with the outcome of a drain.
  unfoldable pub on_application_shutdown :
      Result Value (Unit {0}) → Service → Result Value (Unit {0})
  on_application_shutdown drain service = elim service.connection [ none ↦ ok tt | some c ↦ drain ]

  abbrev pub Outcome : Type 0
  Outcome = Result CallError (Unit {0}) × Service × Server

  -- The `catch` of one round: the next round starts disconnected, unless closing throws.
  abbrev pub after_close :
      Result Value (Unit {0}) → Service → Server → (Server → Option Outcome) → Option Outcome
  after_close (err v) service s again = some (err (failed v), service, s)
  after_close (ok done) service s again = again s

  abbrev pub after_attempt : Attempt → Outcome → (Server → Option Outcome) → Option Outcome
  after_attempt env (ok done, service, s) again = some (ok tt, service, s)
  after_attempt env (err e, service, s) again =
      after_close (close_connection env service) service s again

  -- `onModuleInit` from round k on; `none` where the fuel runs out. The `for` has no other end than
  -- the `return`, and an error of `close`.
  unfoldable pub on_module_init : ℕ → (ℕ → Attempt) → ℕ → Service → Server → Option Outcome
  unfolding attempt
  on_module_init zero envs k service s = none
  on_module_init (suc fuel) envs k service s =
      after_attempt (envs k) (attempt (envs k) service s)
        (on_module_init fuel envs (suc k) disconnected)
