-- ===== src/Expiration/JetStream/Streams/DeadLetter.antt =====
-- The stream of the dead letters once the service has made sure of it.
use polyglot_ticketing_v.Base.{
  String, ◌≡◌, refl, ap, ◌∙◌, ◌⊎◌, inl, inr, true, false, some, List, [], ◌∷◌, ◌++◌, contains,
  Result, ok, err, eq_iff, if◌then◌else◌, Bool-cases, arith,
}
use polyglot_ticketing_v.Platform.JetStream.{
  StreamConfig, CallError, stream_not_found, Call, throw, JetStreamApi, and_then, or_handle,
}
use polyglot_ticketing_v.Expiration.Constants.{
  expiration_dead_letter_stream, order_created_dead_letter_subject,
}
use polyglot_ticketing_v.Expiration.JetStream.{
  is_stream_not_found, dead_letter_config, add_or_info, with_dead_letter_subject, update_subjects,
  ensure_expiration_dead_letter_stream,
}
use polyglot_ticketing_v.Expiration.JetStream.Streams.{
  Refused, Made, Made-Exists, left_as, created-Made,
}

contains-append_last : (names : List String) (k : String) → contains (names ++ k ∷ []) k ≡ true
contains-append_last [] k = ground (arith, eq_iff k k)
contains-append_last (n ∷ names) k = ground (arith, contains-append_last names k)

module _ (api : JetStreamApi) where
  open api use {Server, subjects_of, info, add, update, info-ok, add-ok, update-ok}

  -- The subjects that the dead letter stream is left with.
  abbrev pub extended : StreamConfig → List String
  extended c =
      if contains c.subjects order_created_dead_letter_subject
      then c.subjects
      else c.subjects ++ order_created_dead_letter_subject ∷ []

  -- The service finds no dead letter stream: neither its look nor, where it saw one that has gone by
  -- then, its update.
  abbrev pub Missing : Server → Server → Type 0
  Missing s u =
      (info expiration_dead_letter_stream s ≡ (err stream_not_found, u))
      ⊎ ((c : StreamConfig) × (w : Server) × (info expiration_dead_letter_stream s ≡ (ok c, w))
          × (update expiration_dead_letter_stream (with_dead_letter_subject api c) w
              ≡ (err stream_not_found, u)))

  -- The stream was there and is left with the dead letter subject beside its own; or it was made.
  abbrev pub Ensured : Server → Server → Type 0
  Ensured s t =
      ((c : StreamConfig) × (u : Server) × (info expiration_dead_letter_stream s ≡ (ok c, u))
        × (subjects_of t expiration_dead_letter_stream ≡ some (extended c)))
      ⊎ ((u : Server) × Missing s u × Made api (dead_letter_config api) u t)

  abbrev handler : CallError → Call Server (Unit {0})
  handler e = if is_stream_not_found e then add_or_info api (dead_letter_config api) else throw e

  updated-Ensured :
      (s t u : Server) (c : StreamConfig)
      → info expiration_dead_letter_stream s ≡ (ok c, u)
      → or_handle (update_subjects api c u) handler ≡ (ok tt, t)
      → Ensured s t
  updated-Ensured s t u c read h =
      elim (Bool-cases (contains c.subjects order_created_dead_letter_subject)) [
        | inl there ↦ inl (
          c,
          u,
          read,
          rw (there, if◌then◌else◌)
              (left_as api (info-ok expiration_dead_letter_stream s u c read)
                (rw (there, if◌then◌else◌) at h)),
        )
        | inr missing ↦
            go missing (update expiration_dead_letter_stream (with_dead_letter_subject api c) u)
              refl (rw (missing, if◌then◌else◌) at h)
      ]
    where
      go :
          contains c.subjects order_created_dead_letter_subject ≡ false
          → (r : Result CallError (Unit {0}) × Server)
          → update expiration_dead_letter_stream (with_dead_letter_subject api c) u ≡ r
          → or_handle r handler ≡ (ok tt, t)
          → Ensured s t
      go missing (ok done, v) written k = inl (
        c,
        u,
        read,
        rw (missing, if◌then◌else◌)
            (left_as api
              (update-ok expiration_dead_letter_stream (with_dead_letter_subject api c) u v written)
              k),
      )
      go missing (err e, v) written k =
          let (not_found, made) = created-Made api (dead_letter_config api) e v t k in
          inr (v, inr (c, u, read, written ∙ ap (λ f. (err f, v)) not_found), made)

  ensure_expiration_dead_letter_stream-Ensured :
      (s t : Server) → ensure_expiration_dead_letter_stream api s ≡ (ok tt, t) → Ensured s t
  unfolding ensure_expiration_dead_letter_stream
  ensure_expiration_dead_letter_stream-Ensured s t = go (info expiration_dead_letter_stream s) refl
    where
      go :
          (r : Result CallError StreamConfig × Server)
          → info expiration_dead_letter_stream s ≡ r
          → or_handle (and_then r (update_subjects api)) handler ≡ (ok tt, t)
          → Ensured s t
      go (ok c, u) read h = updated-Ensured s t u c read h
      go (err e, u) read h =
          let (not_found, made) = created-Made api (dead_letter_config api) e u t h in
          inr (u, inl (read ∙ ap (λ f. (err f, u)) not_found), made)

  extended-contains :
      (c : StreamConfig) → contains (extended c) order_created_dead_letter_subject ≡ true
  extended-contains c = elim (Bool-cases (contains c.subjects order_created_dead_letter_subject)) [
    | inl there ↦ rw (there, if◌then◌else◌) there
    | inr missing ↦
        rw (missing, if◌then◌else◌)
          (contains-append_last c.subjects order_created_dead_letter_subject)
  ]

  -- The stream takes the dead letters; or this run of the service found no stream, its creation of
  -- one was refused, and it took the stream that another client had made.
  abbrev pub Covered : Server → Server → Type 0
  Covered s t =
      (subjects : List String) × (subjects_of t expiration_dead_letter_stream ≡ some subjects)
      × ((contains subjects order_created_dead_letter_subject ≡ true)
          ⊎ ((u : Server) × Missing s u × Refused api (dead_letter_config api) u t))

  -- Where making sure of the dead letter stream returns, the server has that stream, and the stream
  -- takes the dead letters; except where this run of the service found no such stream, its creation
  -- of one was refused, and another client had made one by then.
  pub ensure_expiration_dead_letter_stream-covers :
      (s t : Server) → ensure_expiration_dead_letter_stream api s ≡ (ok tt, t) → Covered s t
  ensure_expiration_dead_letter_stream-covers s t h =
      elim (ensure_expiration_dead_letter_stream-Ensured s t h) [
        | inl (c, u, read, found) ↦ (extended c, found, inl (extended-contains c))
        | inr (u, missing, inl found) ↦ (
          order_created_dead_letter_subject ∷ [],
          found,
          inl (contains-append_last [] order_created_dead_letter_subject),
        )
        | inr (u, missing, inr refused) ↦
            let (subjects, found) = Made-Exists api (dead_letter_config api) u t (inr refused) in
            (subjects, found, inr (u, missing, refused))
      ]

  -- The exception is real: where another client makes the stream between the look and the creation,
  -- with subjects of its own, the service takes it as it is.
  pub ensure_expiration_dead_letter_stream_race :
      (s u v t : Server) (e : CallError) (c : StreamConfig)
      → info expiration_dead_letter_stream s ≡ (err stream_not_found, u)
      → add (dead_letter_config api) u ≡ (err e, v)
      → info expiration_dead_letter_stream v ≡ (ok c, t)
      → (ensure_expiration_dead_letter_stream api s ≡ (ok tt, t))
        × (subjects_of t expiration_dead_letter_stream ≡ some c.subjects)
  unfolding ensure_expiration_dead_letter_stream add_or_info
  ensure_expiration_dead_letter_stream_race s u v t e c missing refused read =
      (rw (missing, refused, read), info-ok expiration_dead_letter_stream v t c read)
