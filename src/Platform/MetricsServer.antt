-- ===== src/Platform/MetricsServer.antt =====
-- The HTTP server of the metrics, `startMetricsServer`, which the three services have alike:
-- apps/api-gateway/src/observability/prometheus.ts, and under apps/identity and apps/expiration.
use polyglot_ticketing_v.Base.{
  ℕ, String, not, Option, none, some, Result, ok, ◌>>=◌, str_eq, if◌then◌else◌,
}
use polyglot_ticketing_v.Value.{Value}

pub record Response : Type 0 where
  pub status_code : ℕ
  pub content_type : Option String
  pub body : Option String

-- The handler of a request, with what `metrics.contentType()` and `metrics.metrics()` give.
unfoldable pub serve_metrics : String → String → Result Value String → Result Value Response
serve_metrics url content_type metrics =
    if not (str_eq url "/metrics")
    then ok (record { status_code = 404; content_type = none; body = none })
    else (do
      text ← metrics
      ok (record { status_code = 200; content_type = some content_type; body = some text }))
