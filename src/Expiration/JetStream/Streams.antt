-- ===== src/Expiration/JetStream/Streams.antt =====
-- What the streams hold once the service has made sure of them.
pub mod DeadLetter
use polyglot_ticketing_v.Base.{
  String, ◌≡◌, refl, ap, ◌∙◌, subst, ◌⊎◌, inl, inr, true, false, some, List, [], ◌∷◌, ◌++◌,
  contains, Result, ok, err, eq_iff, if◌then◌else◌, Bool-cases, arith,
}
use polyglot_ticketing_v.Platform.JetStream.{
  StreamConfig, CallError, stream_not_found, consumer_not_found, failed, Call, pure, throw,
  JetStreamApi, and_then, or_handle, ◌>>=◌, catching,
}
use polyglot_ticketing_v.Expiration.Constants.{
  expiration_events_stream, expiration_dead_letter_stream, order_created_dead_letter_subject,
}
use polyglot_ticketing_v.Expiration.JetStream.{
  is_stream_not_found, expiration_events_config, dead_letter_config, add_or_info,
  ensure_expiration_event_stream, with_dead_letter_subject, update_subjects,
  ensure_expiration_dead_letter_stream,
}

module _ (api : JetStreamApi) where
  open api use {Server, subjects_of, info, add, update, info-ok, add-ok, update-ok}

  -- The creation of a stream that is refused at a server, where another client has made a stream of
  -- that name by then: the service looks at it and takes it.
  abbrev pub Refused : StreamConfig → Server → Server → Type 0
  Refused config u t =
      (v : Server) × (e : CallError) × (c : StreamConfig) × (add config u ≡ (err e, v))
      × (info config.name v ≡ (ok c, t))

  -- The stream has some subjects.
  abbrev pub Exists : Server → String → Type 0
  Exists t name = (subjects : List String) × (subjects_of t name ≡ some subjects)

  err-ne-ok :
      {e : CallError} {u t : Server}
      → ◌≡◌ {A = Result CallError (Unit {0}) × Server} (err e, u) (ok tt, t)
      → ⊥
  err-ne-ok h = ground (arith, ap (λ r. r.0) h)

  same_server :
      {u t : Server} → ◌≡◌ {A = Result CallError (Unit {0}) × Server} (ok tt, u) (ok tt, t) → u ≡ t
  same_server h = ap (λ r. r.1) h

  -- Where a call leaves the subjects of a stream, and no other call follows.
  pub left_as :
      {u t : Server} {name : String} {subjects : List String}
      → subjects_of u name ≡ some subjects
      → ◌≡◌ {A = Result CallError (Unit {0}) × Server} (ok tt, u) (ok tt, t)
      → subjects_of t name ≡ some subjects
  left_as {name} {subjects} found h =
      subst (λ x. subjects_of x name ≡ some subjects) (same_server h) found

  info-Seen :
      (name : String) (e : CallError) (s t : Server)
      → or_handle (and_then (info name s) (λ c. pure tt)) (λ _. throw e) ≡ (ok tt, t)
      → (c : StreamConfig) × (info name s ≡ (ok c, t))
  info-Seen name e s t = go (info name s) refl
    where
      go :
          (r : Result CallError StreamConfig × Server)
          → info name s ≡ r
          → or_handle (and_then r (λ c. pure tt)) (λ _. throw e) ≡ (ok tt, t)
          → (c : StreamConfig) × (info name s ≡ (ok c, t))
      go (ok c, u) read h = (c, read ∙ ap (λ v. (ok c, v)) (same_server h))
      go (err f, u) read h = absurd (err-ne-ok h)

  -- A stream that is asked for is there with its subjects; or its creation was refused.
  abbrev pub Made : StreamConfig → Server → Server → Type 0
  Made config s t = (subjects_of t config.name ≡ some config.subjects) ⊎ Refused config s t

  add_or_info-Made :
      (config : StreamConfig) (s t : Server)
      → add_or_info api config s ≡ (ok tt, t)
      → Made config s t
  unfolding add_or_info
  add_or_info-Made config s t = go (add config s) refl
    where
      go :
          (r : Result CallError (Unit {0}) × Server)
          → add config s ≡ r
          → or_handle r (λ e. catching (info config.name >>= λ c. pure tt) (λ _. throw e))
            ≡ (ok tt, t)
          → Made config s t
      go (ok done, u) made h = inl (left_as (add-ok config s u made) h)
      go (err e, u) made h =
          let (c, seen) = info-Seen config.name e u t h in inr (u, e, c, made, seen)

  pub Made-Exists : (config : StreamConfig) (s t : Server) → Made config s t → Exists t config.name
  Made-Exists config s t (inl found) = (config.subjects, found)
  Made-Exists config s t (inr (v, e, c, refused, seen)) =
      (c.subjects, info-ok config.name v t c seen)

  only_missing : (e : CallError) → is_stream_not_found e ≡ true → e ≡ stream_not_found
  only_missing stream_not_found h = refl
  only_missing consumer_not_found h = cc
  only_missing (failed v) h = cc

  pub created-Made :
      (config : StreamConfig) (e : CallError) (s t : Server)
      → (if is_stream_not_found e then add_or_info api config else throw e) s ≡ (ok tt, t)
      → (e ≡ stream_not_found) × Made config s t
  created-Made config e s t h = elim (Bool-cases (is_stream_not_found e)) [
    | inl missing ↦
        (only_missing e missing, add_or_info-Made config s t (rw (missing, if◌then◌else◌) at h))
    | inr other ↦ absurd (err-ne-ok (rw (other, if◌then◌else◌) at h))
  ]

  -- Where making sure of the events stream returns, the server has that stream.
  pub ensure_expiration_event_stream-Exists :
      (s t : Server)
      → ensure_expiration_event_stream api s ≡ (ok tt, t)
      → Exists t expiration_events_stream
  unfolding ensure_expiration_event_stream
  ensure_expiration_event_stream-Exists s t = go (info expiration_events_stream s) refl
    where
      go :
          (r : Result CallError StreamConfig × Server)
          → info expiration_events_stream s ≡ r
          → or_handle (and_then r (λ c. pure tt)) (λ e.
            if is_stream_not_found e then add_or_info api expiration_events_config else throw e)
            ≡ (ok tt, t)
          → Exists t expiration_events_stream
      go (ok c, u) read h = (c.subjects, left_as (info-ok expiration_events_stream s u c read) h)
      go (err e, u) read h =
          Made-Exists expiration_events_config u t (created-Made expiration_events_config e u t h).1
