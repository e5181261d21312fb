-- ===== src/Tracing.antt =====
-- libs/observability/src/tracing.ts: the settings that `startTracing` gives to OpenTelemetry.
use polyglot_ticketing_v.Base.{String, Bool, default_to, str_eq}
use polyglot_ticketing_v.Base.Text.{append}
use polyglot_ticketing_v.Identity.Auth.{Environment}

pub record Tracing : Type 0 where
  pub service_name : String
  pub deployment_environment : String
  pub exporter_url : String
  -- The requests that are not traced, by their URL.
  pub ignores : String → Bool

unfoldable pub start_tracing : Environment → String → Tracing
start_tracing env service_name =
    let endpoint = default_to "localhost:4318" (env "OTEL_EXPORTER_OTLP_ENDPOINT") in
    record {
      service_name = service_name;
      deployment_environment = "local";
      exporter_url = append "http://" (append endpoint "/v1/traces");
      ignores = λ url. str_eq url "/metrics";
    }
