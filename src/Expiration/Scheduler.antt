-- ===== src/Expiration/Scheduler.antt =====
-- apps/expiration/src/expiration/expiration.scheduler.ts
pub mod Timing
use polyglot_ticketing_v.Base.{ℕ, ℤ, String, false, monus, Result}
use polyglot_ticketing_v.Value.{Value}
use polyglot_ticketing_v.Expiration.Constants.{
  expiration_job_name, expiration_publish_attempts, expiration_publish_backoff_milliseconds,
}
use polyglot_ticketing_v.Expiration.Effects.{Job, Run, scheduled, perform}

-- The job that `schedule` adds, at the time `now`.
unfoldable pub expiration_job : ℤ → String → ℤ → Job
expiration_job now order_id expires_at = record {
  name = expiration_job_name;
  order_id = order_id;
  attempts = expiration_publish_attempts;
  backoff_type = "exponential";
  backoff_delay = expiration_publish_backoff_milliseconds;
  delay = monus expires_at now;
  job_id = order_id;
  remove_on_complete = false;
  remove_on_fail = false;
}

-- `queue.add` is third-party: its outcome is an argument.
unfoldable pub schedule : Result Value (Unit {0}) → ℤ → String → ℤ → Run (Unit {0})
unfolding expiration_job
schedule add now order_id expires_at =
    perform (scheduled (expiration_job now order_id expires_at)) add
