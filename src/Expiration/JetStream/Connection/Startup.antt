-- ===== src/Expiration/JetStream/Connection/Startup.antt =====
-- What holds once `onModuleInit` has returned, and when it does.
use polyglot_ticketing_v.Base.{ℕ, zero, suc, ◌+◌, ◌<◌, ◌≤◌, ◌≡◌, ◌∙◌, subst, some, ok, err, arith}
use polyglot_ticketing_v.Value.{Value}
use polyglot_ticketing_v.Platform.JetStream.{CallError, JetStreamApi}
use polyglot_ticketing_v.Expiration.Constants.{expiration_events_stream}
use polyglot_ticketing_v.Expiration.JetStream.{
  ensure_expiration_event_stream, ensure_expiration_dead_letter_stream,
}
use polyglot_ticketing_v.Expiration.JetStream.Streams.{Exists}
use polyglot_ticketing_v.Expiration.JetStream.Streams.DeadLetter.{Covered}
use polyglot_ticketing_v.Expiration.JetStream.Connection.{
  Service, Attempt, disconnected, require_client, require_manager, attempt, close_connection,
  after_attempt, on_module_init,
}

module _ (api : JetStreamApi) where
  open api use {Server, Connection, subjects_of}

  -- The service has a client and a manager of one connection. From the server at the start of its
  -- round it has made sure of the events stream, which was there, and then of the dead letter
  -- stream.
  pub record Ready (service : Service api) (s t : Server) : Type 0 where
    pub connection : Connection
    pub connected : service.connection ≡ some connection
    pub client : require_client api service ≡ ok connection
    pub manager : require_manager api service ≡ ok connection
    pub between : Server
    pub ensured_events : ensure_expiration_event_stream api s ≡ (ok tt, between)
    pub events : Exists api between expiration_events_stream
    pub ensured_dead_letters : ensure_expiration_dead_letter_stream api between ≡ (ok tt, t)
    pub dead_letters : Covered api between t

  -- Rounds that fail, each with its connection closed: from a round, its service and its server to
  -- a later one.
  pub data Rounds (envs : ℕ → Attempt api)
      : ℕ → Service api → Server → ℕ → Service api → Server → Type 0 where
    here : {k : ℕ} {service : Service api} {s : Server} → Rounds envs k service s k service s
    failed_round :
        {k m : ℕ} {service broken began : Service api} {s u w : Server} {e : CallError}
        → attempt api (envs k) service s ≡ (err e, broken, u)
        → close_connection api (envs k) broken ≡ ok tt
        → Rounds envs (suc k) (disconnected api) u m began w
        → Rounds envs k service s m began w

  abbrev both : Connection → Service api
  both c = record { connection = some c; client = some c; manager = some c }

  -- What a start-up that returns has gone through.
  abbrev pub Started : (ℕ → Attempt api) → ℕ → Service api → Server → Service api → Server → Type 0
  Started envs k service s last t =
      (m : ℕ) × (began : Service api) × (u : Server) × Rounds envs k service s m began u
      × Ready last u t

  -- One round in which `connect` fails.
  attempt_down :
      (env : Attempt api) (v : Value) (fuel : ℕ) (envs : ℕ → Attempt api) (k : ℕ) (s : Server)
      → env.connect ≡ err v
      → after_attempt api env
          (attempt api env (disconnected api) s)
          (on_module_init api fuel envs k (disconnected api))
        ≡ on_module_init api fuel envs k (disconnected api) s
  unfolding attempt
  attempt_down env v fuel envs k s down = rw down

  -- Rounds in which NATS cannot be reached do not end the start-up: where `connect` fails in the
  -- rounds from k to m and round m goes through, `onModuleInit` returns in that round.
  pub on_module_init_retries :
      (n : ℕ) (envs : ℕ → Attempt api) (k m : ℕ) (last : Service api) (s t : Server)
      → k + n ≡ m
      → ((j : ℕ) → k ≤ j → j < m → (v : Value) × ((envs j).connect ≡ err v))
      → attempt api (envs m) (disconnected api) s ≡ (ok tt, last, t)
      → on_module_init api (suc n) envs k (disconnected api) s ≡ some (ok tt, last, t)
  unfolding on_module_init
  on_module_init_retries zero envs k m last s t total down up =
      let same : m ≡ k = omega arith in
      rw (subst (λ j. attempt api (envs j) (disconnected api) s ≡ (ok tt, last, t)) same up)
  on_module_init_retries (suc n) envs k m last s t total down up =
      let (v, failing) = down k (omega arith) (omega arith) in
      attempt_down (envs k) v (suc n) envs (suc k) s failing
      ∙ on_module_init_retries n envs (suc k) m last s t (omega arith)
          (λ j lo hi. down j (omega arith) hi) up
