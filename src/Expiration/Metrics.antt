-- ===== src/Expiration/Metrics.antt =====
-- The metrics of the expiration service: apps/expiration/src/observability/prometheus.ts, with the
-- calls of the consumer and of the processor. The counter and the histogram are third-party: they
-- are the observations that they are given.
pub mod Outcomes
use polyglot_ticketing_v.Base.{String, List, [], ◌∷◌}
use polyglot_ticketing_v.Value.{Value}
use polyglot_ticketing_v.Expiration.Effects.{Effect, observed}

pub record Labels : Type 0 where
  pub component : String
  pub operation : String
  pub outcome : String

-- What the counter and the histogram have been given, the last first; a duration is a number.
pub record ExpirationMetrics : Type 0 where
  pub operations : List Labels
  pub duration : List (Labels × Value)

unfoldable pub observe : String → String → String → Value → ExpirationMetrics → ExpirationMetrics
observe component operation outcome duration_seconds metrics =
    let labels : Labels = record {
      component = component;
      operation = operation;
      outcome = outcome;
    } in
    record metrics {
      operations = labels ∷ metrics.operations;
      duration = (labels, duration_seconds) ∷ metrics.duration;
    }

-- The observations of a log, in order, each with the time that has passed since the call began.
unfoldable pub observe_log :
    String → String → Value → List Effect → ExpirationMetrics → ExpirationMetrics
unfolding observe
observe_log component operation seconds [] metrics = metrics
observe_log component operation seconds (observed outcome ∷ log) metrics =
    observe_log component operation seconds log
      (observe component operation outcome seconds metrics)
observe_log component operation seconds (_ ∷ log) metrics =
    observe_log component operation seconds log metrics

-- `observe` of the consumer, and of the processor.
abbrev pub observe_delivery : Value → List Effect → ExpirationMetrics → ExpirationMetrics
observe_delivery seconds log metrics =
    observe_log "jetstream_consumer" "order_created" seconds log metrics

abbrev pub observe_job : Value → List Effect → ExpirationMetrics → ExpirationMetrics
observe_job seconds log metrics =
    observe_log "bullmq_processor" "expiration_complete" seconds log metrics
