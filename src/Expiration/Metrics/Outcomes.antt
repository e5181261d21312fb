-- ===== src/Expiration/Metrics/Outcomes.antt =====
-- What the metrics tell of the deliveries and of the jobs.
use polyglot_ticketing_v.Base.{
  String, ◌≡◌, ◌≢◌, inl, inr, refl, ◌↔◌, Bool-cases, Bool, eq_iff, err-ne-ok, true, false, ◌&&◌,
  not, List, [], ◌∷◌, any, Result, ok, err, str_eq, if◌then◌else◌, arith, ◌||◌,
}
use polyglot_ticketing_v.Value.{Value}
use polyglot_ticketing_v.Expiration.Effects.{Effect, published, observed, Job}
use polyglot_ticketing_v.Expiration.Constants.{expiration_job_name}
use polyglot_ticketing_v.Expiration.Processor.{process, publish_expiration_complete}
use polyglot_ticketing_v.Expiration.Consumer.{is_acked, is_naked, is_parked, is_scheduled}
use polyglot_ticketing_v.Expiration.Metrics.{ExpirationMetrics, observe, observe_log, observe_job}

-- What an outcome of the consumer means for the log of its delivery.
abbrev pub holds_for : String → List Effect → Bool
holds_for outcome log =
    if str_eq outcome "success"
    then any is_scheduled log && any is_acked log && not (any is_naked log || any is_parked log)
    else if str_eq outcome "dead_lettered"
    then any is_parked log && any is_acked log && not (any is_naked log)
    else if str_eq outcome "retry"
    then any is_naked log && not (any is_acked log || any is_parked log)
    else str_eq outcome "dead_letter_publish_failed"
      && any is_naked log
      && not (any is_acked log || any is_parked log)

-- The outcomes of a log.
abbrev pub outcomes : List Effect → List String
outcomes [] = []
outcomes (observed outcome ∷ log) = outcome ∷ outcomes log
outcomes (_ ∷ log) = outcomes log

abbrev tells : List Effect → List String → Bool
tells log (outcome ∷ []) = holds_for outcome log
tells log _ = false

abbrev nothing : List String → Bool
nothing [] = true
nothing _ = false

abbrev observe_outcomes :
    String → String → Value → List String → ExpirationMetrics → ExpirationMetrics
observe_outcomes component operation seconds [] metrics = metrics
observe_outcomes component operation seconds (outcome ∷ rest) metrics =
    observe_outcomes component operation seconds rest
      (observe component operation outcome seconds metrics)

abbrev is_published : Effect → Bool
is_published (published message) = true
is_published _ = false

unsupported-ne-success : ◌≢◌ {A = String} "unsupported" "success"
unsupported-ne-success e = ground (arith, eq_iff "unsupported" "success")

retry-ne-success : ◌≢◌ {A = String} "retry" "success"
retry-ne-success e = ground (arith, eq_iff "retry" "success")

-- A job that is attempted is counted once: as a success exactly where the completion of its order is
-- published and the attempt returns.
pub process-counted :
    (publish : Result Value (Unit {0})) (job : Job) (seconds : Value) (metrics : ExpirationMetrics)
    → (outcome : String) × (observe_job seconds (process publish job).1 metrics
        ≡ observe "bullmq_processor" "expiration_complete" outcome seconds metrics)
      × (str_eq outcome "success" ≡ any is_published (process publish job).1)
      × ((outcome ≡ "success") ↔ ((process publish job).0 ≡ ok tt))
unfolding observe_log process publish_expiration_complete
process-counted (ok done) job seconds metrics =
    elim (Bool-cases (str_eq job.name expiration_job_name)) [
      | inl named ↦ ("success", rw named, rw named, (λ e. rw named, λ r. refl))
      | inr other ↦ (
        "unsupported",
        rw other,
        rw other,
        (λ e. absurd (unsupported-ne-success e), λ r. absurd (err-ne-ok (rw other at r))),
      )
    ]
process-counted (err e) job seconds metrics =
    elim (Bool-cases (str_eq job.name expiration_job_name)) [
      | inl named ↦ (
        "retry",
        rw named,
        rw named,
        (λ e. absurd (retry-ne-success e), λ r. absurd (err-ne-ok (rw named at r))),
      )
      | inr other ↦ (
        "unsupported",
        rw other,
        rw other,
        (λ e. absurd (unsupported-ne-success e), λ r. absurd (err-ne-ok (rw other at r))),
      )
    ]
