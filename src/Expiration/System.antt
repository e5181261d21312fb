-- ===== src/Expiration/System.antt =====
-- The service with its queue and the event stream, one step at a time: the consumer and its handler
-- (apps/expiration/src/expiration/order-created.consumer.ts), the scheduler and the processor.
-- BullMQ is third-party: `QueueApi` states what its documentation says of job identities, of the
-- attempts that a job has, and of finished jobs that are kept. The waiting before a new attempt is
-- left out.
pub mod Origin
pub mod Jobs
pub mod Attempts
pub mod Counting
pub mod Invariant
pub mod Completions
pub mod Progress
pub mod Timer
pub mod Refinement
use polyglot_ticketing_v.Base.{
  ℕ, ◌≤◌, ◌-◌, ℤ, shift, is_le, ◌≡◌, ◌≢◌, String, Bool, true, false, Option, none, some, List, [],
  ◌∷◌, ◌++◌, Result, ok, err,
}
use polyglot_ticketing_v.Value.{Value}
use polyglot_ticketing_v.Expiration.Effects.{
  Failure, Job, Message, Effect, scheduled, published, Run,
}
use polyglot_ticketing_v.Expiration.Scheduler.Timing.{due}
use polyglot_ticketing_v.Expiration.Handler.{Decoder, handle}
use polyglot_ticketing_v.Expiration.Consumer.{Environment, handle_delivery}
use polyglot_ticketing_v.Expiration.Processor.{process}

-- A job with the time from which a worker takes it.
abbrev pub Entry : Type 0
Entry = Job × ℤ

abbrev pub or_else : Option Entry → Entry → Entry
or_else none entry = entry
or_else (some old) entry = old

-- The attempts that a job has left once it is added, by the job that was there.
abbrev pub remaining : Option Entry → ℕ → ℕ → ℕ
remaining none new left = new
remaining (some old) new left = left

pub record QueueApi : Type 1 where
  pub Queue : Type 0
  pub empty : Queue
  -- `queue.add` at a time, and `queue.getJob` by the identity of the job.
  pub add : ℤ → Job → Queue → Queue
  pub get_job : String → Queue → Option Entry
  -- The attempts that are left for the job with an identity: none where it has been completed, or
  -- has failed as often as its options let it.
  pub attempts_left : String → Queue → ℕ
  -- What the queue does when an attempt at a job has returned, and when it has thrown.
  pub complete : Job → Queue → Queue
  pub fail : Job → Queue → Queue
  -- A new queue has no job. A job whose identity the queue has is not added.
  pub get_job-empty : (id : String) → get_job id empty ≡ none
  pub get_job-add :
      (now : ℤ) (job : Job) (q : Queue)
      → get_job job.job_id (add now job q)
        ≡ some (or_else (get_job job.job_id q) (job, due now job.delay))
  pub get_job-add_of_ne :
      (now : ℤ) (job : Job) (q : Queue) (id : String)
      → id ≢ job.job_id
      → get_job id (add now job q) ≡ get_job id q
  -- The options of a job keep it.
  pub get_job-complete :
      (job : Job) (q : Queue) (id : String)
      → job.remove_on_complete ≡ false
      → get_job id (complete job q) ≡ get_job id q
  pub get_job-fail :
      (job : Job) (q : Queue) (id : String)
      → job.remove_on_fail ≡ false
      → get_job id (fail job q) ≡ get_job id q
  -- A new job has its number of attempts; a completed one has none, and a failure takes one.
  pub attempts_left-add :
      (now : ℤ) (job : Job) (q : Queue)
      → attempts_left job.job_id (add now job q)
        ≡ remaining (get_job job.job_id q) job.attempts (attempts_left job.job_id q)
  pub attempts_left-add_of_ne :
      (now : ℤ) (job : Job) (q : Queue) (id : String)
      → id ≢ job.job_id
      → attempts_left id (add now job q) ≡ attempts_left id q
  pub attempts_left-complete :
      (job : Job) (q : Queue) → attempts_left job.job_id (complete job q) ≡ 0
  pub attempts_left-complete_of_ne :
      (job : Job) (q : Queue) (id : String)
      → id ≢ job.job_id
      → attempts_left id (complete job q) ≡ attempts_left id q
  pub attempts_left-fail :
      (job : Job) (q : Queue)
      → attempts_left job.job_id (fail job q) ≡ attempts_left job.job_id q - 1
  pub attempts_left-fail_of_ne :
      (job : Job) (q : Queue) (id : String)
      → id ≢ job.job_id
      → attempts_left id (fail job q) ≡ attempts_left id q

module _ (api : QueueApi) where
  -- What is delivered, what is published, with its time, and the identities of the jobs of which an
  -- attempt has thrown; the last first.
  pub record System : Type 0 where
    pub now : ℤ
    pub queue : api.Queue
    pub delivered : List (List ℕ)
    pub stream : List (ℤ × Message)
    pub thrown : List String

  abbrev pub init : ℤ → System
  init now = record { now = now; queue = api.empty; delivered = []; stream = []; thrown = [] }

  -- The jobs that a log adds to the queue.
  abbrev pub add_all : ℤ → List Effect → api.Queue → api.Queue
  add_all now [] q = q
  add_all now (scheduled job ∷ log) q = add_all now log (api.add now job q)
  add_all now (_ ∷ log) q = add_all now log q

  -- The messages that a log publishes.
  abbrev pub publish_all : ℤ → List Effect → List (ℤ × Message) → List (ℤ × Message)
  publish_all now [] stream = stream
  publish_all now (published m ∷ log) stream = publish_all now log ((now, m) ∷ stream)
  publish_all now (_ ∷ log) stream = publish_all now log stream

  abbrev pub after_delivery : System → List ℕ → List Effect → System
  after_delivery s payload log = record s {
    queue = add_all s.now log s.queue;
    delivered = payload ∷ s.delivered;
  }

  abbrev pub finish : Job → Result Failure (Unit {0}) → api.Queue → api.Queue
  finish job (ok done) q = api.complete job q
  finish job (err e) q = api.fail job q

  abbrev pub note : Job → Result Failure (Unit {0}) → List String → List String
  note job (ok done) thrown = thrown
  note job (err e) thrown = job.job_id ∷ thrown

  -- The result of an attempt, and the log of what reaches the stream.
  abbrev pub after_attempt : System → Job → Run (Unit {0}) → List Effect → System
  after_attempt s job r log = record s {
    queue = finish job r.0 s.queue;
    stream = publish_all s.now log s.stream;
    thrown = note job r.0 s.thrown;
  }

  module _ (decoder : Decoder) where
    pub data Step (s : System) : System → Type 0 where
      tick : (n : ℕ) → Step s (record s { now = shift s.now n })
      -- A delivery, the first of its message or a later one, whichever calls of it throw.
      deliver :
          (env : Environment) (payload : List ℕ) (count : ℕ)
          → env.now ≡ s.now
          → Step s (after_delivery s payload (handle_delivery decoder env payload count).1)
      -- A delivery whose `queue.add` throws, though the queue has the job: its reply is lost.
      deliver_lost :
          (payload : List ℕ)
          → Step s (after_delivery s payload (handle decoder (ok tt) s.now payload).1)
      -- An attempt at a job that is due and has attempts left, with the outcome of its publish.
      attempt :
          (id : String) (job : Job) (t : ℤ) (publish : Result Value (Unit {0}))
          → api.get_job id s.queue ≡ some (job, t)
          → is_le t s.now ≡ true
          → 1 ≤ api.attempts_left id s.queue
          → Step s (after_attempt s job (process publish job) (process publish job).1)
      -- An attempt whose publish throws, though the stream has the message.
      attempt_lost :
          (id : String) (job : Job) (t : ℤ) (e : Value)
          → api.get_job id s.queue ≡ some (job, t)
          → is_le t s.now ≡ true
          → 1 ≤ api.attempts_left id s.queue
          → Step s (after_attempt s job (process (err e) job) (process (ok tt) job).1)

    pub data Reach (s : System) : System → Type 0 where
      start : Reach s s
      later : {t u : System} → Reach s t → Step t u → Reach s u
