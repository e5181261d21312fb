-- ===== src/Tests/Samples/Queue.antt =====
-- A queue as the list of its jobs, each with the time from which it is run.
use polyglot_ticketing_v.Base.{
  ℕ, ◌-◌, String, ◌≡◌, ◌≢◌, refl, Bool, false, some, List, [], ◌∷◌, ◌++◌, str_eq, eq_iff,
  if◌then◌else◌, lookup, arith,
}
use polyglot_ticketing_v.Expiration.Scheduler.Timing.{due}
use polyglot_ticketing_v.Expiration.System.{Entry, or_else, remaining, QueueApi}

abbrev Jobs : Type 0
Jobs = List (String × Entry)

pub lookup-add :
    (id : String) (entry : Entry) (q : Jobs)
    → lookup id (q ++ (id, entry) ∷ []) ≡ some (or_else (lookup id q) entry)
lookup-add id entry [] = ground (arith, eq_iff id id)
lookup-add id entry ((k, old) ∷ q) = ground (arith, lookup-add id entry q)

pub lookup-add_of_ne :
    (id k : String) (entry : Entry) (q : Jobs)
    → k ≢ id
    → lookup k (q ++ (id, entry) ∷ []) ≡ lookup k q
lookup-add_of_ne id k entry [] ne = ground (arith, eq_iff id k)
lookup-add_of_ne id k entry ((j, old) ∷ q) ne = ground (arith, lookup-add_of_ne id k entry q ne)

-- A job that is finished, and not kept.
abbrev remove : String → Jobs → Jobs
remove id [] = []
remove id ((k, entry) ∷ q) =
    let rest = remove id q in if str_eq k id then rest else (k, entry) ∷ rest

pub lookup-kept :
    (removed : Bool) (q r : Jobs) (id : String)
    → removed ≡ false
    → lookup id (if removed then r else q) ≡ lookup id q
lookup-kept removed q r id kept = ground (arith, kept)

-- The jobs, and the attempts that they have left.
pub record Counted : Type 0 where
  pub jobs : Jobs
  pub left : String → ℕ

abbrev set : String → ℕ → (String → ℕ) → String → ℕ
set id n left k = if str_eq k id then n else left k

pub set-same : (id : String) (n : ℕ) (left : String → ℕ) → set id n left id ≡ n
set-same id n left = ground (arith, eq_iff id id)

pub set-other : (id k : String) (n : ℕ) (left : String → ℕ) → k ≢ id → set id n left k ≡ left k
set-other id k n left other = ground (arith, eq_iff k id)

abbrev pub queue : QueueApi
queue = record {
  Queue = Counted;
  empty = record { jobs = []; left = λ id. 0 };
  add = λ now job q. record {
    jobs = q.jobs ++ (job.job_id, (job, due now job.delay)) ∷ [];
    left =
        set job.job_id (remaining (lookup job.job_id q.jobs) job.attempts (q.left job.job_id))
          q.left;
  };
  get_job = λ id q. lookup id q.jobs;
  attempts_left = λ id q. q.left id;
  complete = λ job q. record {
    jobs = if job.remove_on_complete then remove job.job_id q.jobs else q.jobs;
    left = set job.job_id 0 q.left;
  };
  fail = λ job q. record {
    jobs = if job.remove_on_fail then remove job.job_id q.jobs else q.jobs;
    left = set job.job_id (q.left job.job_id - 1) q.left;
  };
  get_job-empty = λ id. refl;
  get_job-add = λ now job q. lookup-add job.job_id (job, due now job.delay) q.jobs;
  get_job-add_of_ne =
      λ now job q id ne. lookup-add_of_ne job.job_id id (job, due now job.delay) q.jobs ne;
  get_job-complete =
      λ job q id kept. lookup-kept job.remove_on_complete q.jobs (remove job.job_id q.jobs) id kept;
  get_job-fail =
      λ job q id kept. lookup-kept job.remove_on_fail q.jobs (remove job.job_id q.jobs) id kept;
  attempts_left-add = λ now job q. set-same job.job_id _ q.left;
  attempts_left-add_of_ne = λ now job q id ne. set-other job.job_id id _ q.left ne;
  attempts_left-complete = λ job q. set-same job.job_id 0 q.left;
  attempts_left-complete_of_ne = λ job q id ne. set-other job.job_id id 0 q.left ne;
  attempts_left-fail = λ job q. set-same job.job_id _ q.left;
  attempts_left-fail_of_ne = λ job q id ne. set-other job.job_id id _ q.left ne;
}
