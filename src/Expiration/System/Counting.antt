-- ===== src/Expiration/System/Counting.antt =====
-- The attempts and the failures of the jobs in every state that the service can reach.
use polyglot_ticketing_v.Base.{
  ℕ, ◌≤◌, ℤ, ◌≡◌, refl, sym, ap, subst, ◌∙◌, ◌⊎◌, String, false, some, List, ◌∷◌, Result, ok, err,
  inl, inr, arith,
}
use mathlib.Core.List.{Memᴰ}
use polyglot_ticketing_v.Value.{Value}
use polyglot_ticketing_v.Expiration.Constants.{expiration_job_name}
use polyglot_ticketing_v.Expiration.Effects.{Failure, Job, Message, Run}
use polyglot_ticketing_v.Expiration.Scheduler.{expiration_job}
use polyglot_ticketing_v.Expiration.Handler.{Decoder}
use polyglot_ticketing_v.Expiration.Consumer.{handle_delivery}
use polyglot_ticketing_v.Expiration.Processor.{completion_message, process}
use polyglot_ticketing_v.Expiration.System.{
  QueueApi, System, init, add_all, publish_all, finish, note, after_attempt, Step, tick, deliver,
  deliver_lost, attempt, attempt_lost, Reach, start, later,
}
use polyglot_ticketing_v.Expiration.System.Origin.{
  Origin, Origin-job, IsTraced, Adds, handle-Adds, handle_delivery-Adds,
}
use polyglot_ticketing_v.Expiration.System.Invariant.{publish_all-process, Reach-Next}
use polyglot_ticketing_v.Expiration.System.Attempts.{
  IsCompleted, Counted, Shrinks, add-Counted, fail-Counted, complete-Counted, add-Shrinks,
  fail-Shrinks, complete-Shrinks,
}

module _ (api : QueueApi) (decoder : Decoder) where
  abbrev pub Counts : System api → Type 0
  Counts s = Counted api s.queue s.thrown s.stream

  -- What a step from one state to another keeps.
  abbrev Keeps : System api → System api → Type 0
  Keeps s t = Counts t × Shrinks api s.queue t.queue

  Adds-Keeps :
      (s : System api) (payload : List ℕ) (r : api.Queue)
      → Counts s
      → Adds decoder api s.now payload s.queue r
      → Keeps s (record s { queue = r; delivered = payload ∷ s.delivered })
  unfolding expiration_job
  Adds-Keeps s payload r counts (inl same) = (
    subst (λ q. Counted api q s.thrown s.stream) (sym same) counts,
    λ id entry found. omega (arith, ap (λ q. api.attempts_left id q) same),
  )
  Adds-Keeps s payload r counts (inr (event, expiry, accepted, added)) =
      let job = expiration_job s.now event.order_id expiry in
      subst (λ q. Keeps s (record s { queue = q; delivered = payload ∷ s.delivered })) (sym added)
        (
          add-Counted api s.now job s.queue s.thrown s.stream refl counts,
          add-Shrinks api s.now job s.queue,
        )

  Origin-job_id :
      {delivered : List (List ℕ)} {id : String} {job : Job} {t : ℤ}
      → Origin decoder delivered id (job, t)
      → job.job_id ≡ id
  unfolding expiration_job
  Origin-job_id o = ap (λ entry. entry.0.job_id) o.made ∙ sym o.named

  -- An attempt that returns has published.
  process-published :
      (publish : Result Value (Unit {0})) (job : Job) (now : ℤ) (stream : List (ℤ × Message))
      (done : Unit {0})
      → job.name ≡ expiration_job_name
      → (process publish job).0 ≡ ok done
      → publish_all api now (process publish job).1 stream
        ≡ (now, completion_message job.order_id) ∷ stream
  unfolding process
  process-published publish job now stream done named h = ground (arith, named)

  kept :
      (now : ℤ) (m : Message) (stream sents : List (ℤ × Message))
      → (sents ≡ stream) ⊎ (sents ≡ (now, m) ∷ stream)
      → (sent : ℤ × Message) → Memᴰ sent stream
      → Memᴰ sent sents
  kept now m stream sents (inl same) sent found = subst (λ l. Memᴰ sent l) (sym same) found
  kept now m stream sents (inr more) sent found =
      subst (λ l. Memᴰ sent l) (sym more) (Memᴰ.tail found)

  -- How an attempt ends.
  finish-Keeps :
      (s : System api) (job : Job) (t : ℤ) (r : Result Failure (Unit {0}))
      (sents : List (ℤ × Message))
      → api.get_job job.job_id s.queue ≡ some (job, t)
      → job.remove_on_complete ≡ false
      → job.remove_on_fail ≡ false
      → 1 ≤ api.attempts_left job.job_id s.queue
      → ((sent : ℤ × Message) → Memᴰ sent s.stream → Memᴰ sent sents)
      → ((done : Unit {0}) → r ≡ ok done → IsCompleted job.job_id sents)
      → Counts s
      → Counted api (finish api job r s.queue) (note api job r s.thrown) sents
        × Shrinks api s.queue (finish api job r s.queue)
  finish-Keeps s job t (ok done) sents found completes fails left more published counts = (
    complete-Counted api job (job, t) s.queue s.thrown s.stream sents found completes
        (published done refl) more counts,
    complete-Shrinks api job s.queue,
  )
  finish-Keeps s job t (err e) sents found completes fails left more published counts = (
    fail-Counted api job (job, t) s.queue s.thrown s.stream sents found fails left more counts,
    fail-Shrinks api job s.queue,
  )

  attempt-Keeps :
      (s : System api) (id : String) (job : Job) (t : ℤ) (r : Run (Unit {0}))
      (publish : Result Value (Unit {0}))
      → IsTraced decoder api s
      → Counts s
      → api.get_job id s.queue ≡ some (job, t)
      → 1 ≤ api.attempts_left id s.queue
      → ((done : Unit {0}) → r.0 ≡ ok done → (process publish job).0 ≡ ok done)
      → Keeps s (after_attempt api s job r (process publish job).1)
  attempt-Keeps s id job t r publish traced counts found left returned =
      let origin = traced.jobs id (job, t) found in
      let (named, known, completes, fails) = Origin-job decoder origin in
      let keyed = Origin-job_id origin in
      let sents = publish_all api s.now (process publish job).1 s.stream in
      finish-Keeps s job t r.0 sents (ap (λ i. api.get_job i s.queue) keyed ∙ found) completes fails
        (subst (λ i. 1 ≤ api.attempts_left i s.queue) (sym keyed) left)
        (kept s.now (completion_message job.order_id) s.stream sents
          (publish_all-process api decoder publish job s.now s.stream))
        (λ done ended. (
          s.now,
          subst (λ l. Memᴰ (s.now, completion_message job.job_id) l)
              (sym (process-published publish job s.now s.stream done known (returned done ended)))
              (Memᴰ.head (ap (λ i. (s.now, completion_message i)) (keyed ∙ sym named))),
        ))
        counts

  process-refused :
      (e : Value) (job : Job) (done : Unit {0}) → (process (err e) job).0 ≡ ok done → ⊥
  unfolding process
  process-refused e job done h = ground arith

  Step-Keeps :
      {s t : System api} → Step api decoder s t → IsTraced decoder api s → Counts s → Keeps s t
  Step-Keeps (tick n) traced counts = (counts, λ id entry found. omega arith)
  Step-Keeps {s} (deliver env payload count clock) traced counts = Adds-Keeps s payload _ counts (
      subst
        (λ now.
          Adds decoder api now payload s.queue
            (add_all api now (handle_delivery decoder env payload count).1 s.queue))
        clock (handle_delivery-Adds decoder api env payload count s.queue))
  Step-Keeps {s} (deliver_lost payload) traced counts =
      Adds-Keeps s payload _ counts (handle-Adds decoder api payload (ok tt) s.now s.queue)
  Step-Keeps {s} (attempt id job t publish found late left) traced counts =
      attempt-Keeps s id job t (process publish job) publish traced counts found left λ done h. h
  Step-Keeps {s} (attempt_lost id job t e found late left) traced counts =
      attempt-Keeps s id job t (process (err e) job) (ok tt) traced counts found left
        λ done h. absurd (process-refused e job done h)

  pub Reach-Keeps :
      {s t : System api} → Reach api decoder s t → IsTraced decoder api s → Counts s → Keeps s t
  Reach-Keeps start traced counts = (counts, λ id entry found. omega arith)
  Reach-Keeps (later r step) traced counts =
      let (counts', before) = Reach-Keeps r traced counts in
      let (traced', keeps) = Reach-Next api decoder r traced in
      let (counts'', after) = Step-Keeps step traced' counts' in
      (
        counts'',
        λ id entry found.
            omega (arith, before id entry found, after id entry (keeps id entry found)),
      )

  pub init-Counts : (now : ℤ) → Counts (init api now)
  init-Counts now id = rw (api.get_job-empty id) refl
