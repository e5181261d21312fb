-- ===== src/Expiration/Scheduler/Timing.antt =====
-- When a scheduled job becomes due.
use polyglot_ticketing_v.Base.{
  if◌then◌else◌, ℕ, ℤ, pos, negsuc, String, ◌≡◌, refl, shift, is_le, arith,
}
use polyglot_ticketing_v.Expiration.Scheduler.{expiration_job}

-- The time at which a job that is added at `now` becomes due.
abbrev pub due : ℤ → ℕ → ℤ
due now delay = shift now delay

-- The job of an order is due at the order's expiry, and at once where that has passed: never before
-- the expiry and never before now. Its identity is the order.
pub expiration_job-due :
    (now expires_at : ℤ) (order_id : String)
    → (due now (expiration_job now order_id expires_at).delay
        ≡ (if is_le now expires_at then expires_at else now))
      × ((expiration_job now order_id expires_at).job_id ≡ order_id)
unfolding expiration_job
expiration_job-due (pos a) (pos b) order_id = (ground arith, refl)
expiration_job-due (pos a) (negsuc b) order_id = (ground arith, refl)
expiration_job-due (negsuc a) (pos b) order_id = (ground arith, refl)
expiration_job-due (negsuc a) (negsuc b) order_id = (ground arith, refl)
