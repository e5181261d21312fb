-- ===== src/Gateway/Metrics.antt =====
-- The metrics of the gateway: apps/api-gateway/src/observability/prometheus.ts, and the middleware
-- of apps/api-gateway/src/main.ts that feeds them. The counter and the histogram are third-party:
-- they are the observations that they are given.
pub mod LoadTest
use polyglot_ticketing_v.Base.{
  ℕ, ℤ, String, Bool, not, ◌||◌, Option, none, some, List, [], ◌∷◌, Result, ok, err, ◌>>=◌, str_eq,
  ◌==◌, if◌then◌else◌,
}
use polyglot_ticketing_v.Value.{Value, str}
use polyglot_ticketing_v.Platform.Buffer.{BufferApi}
use polyglot_ticketing_v.Gateway.Identity.Headers.{HeaderValue, RequestHeaders, absent, one, many}

pub data TrafficSource : Type 0 where
  k6 other : TrafficSource

pub record Labels : Type 0 where
  pub method : String
  pub route : String
  pub status : String
  pub traffic_source : TrafficSource

-- What the counter and the histogram have been given, the last first; a duration is a number.
pub record ApiGatewayMetrics : Type 0 where
  pub requests : List Labels
  pub durations : List (Labels × Value)

unfoldable pub observe_request :
    String → String → String → Value → TrafficSource → ApiGatewayMetrics → ApiGatewayMetrics
observe_request method route status duration_seconds traffic_source metrics =
    let labels : Labels = record {
      method = method;
      route = route;
      status = status;
      traffic_source = traffic_source;
    } in
    record metrics {
      requests = labels ∷ metrics.requests;
      durations = (labels, duration_seconds) ∷ metrics.durations;
    }

-- A request by the time that its response is finished, as the middleware reads it. `route` is
-- `request.route?.path`, and the status is its decimal text.
pub record FinishedRequest : Type 0 where
  pub method : String
  pub route : Value
  pub headers : RequestHeaders
  pub status : String
  pub seconds : Value

abbrev pub route_label : Value → String
route_label (str path) = path
route_label _ = "unmatched"

module _ (api : BufferApi) where
  open api use {from, length, timing_safe_equal}

  -- The comparison of two tokens.
  abbrev pub source_of_tokens : String → String → Result Value TrafficSource
  source_of_tokens supplied_token configured_token =
      let supplied = from supplied_token in
      let configured = from configured_token in
      if not (length supplied == length configured)
      then ok other
      else (do equal ← timing_safe_equal supplied configured; ok (if equal then k6 else other))

  unfoldable pub traffic_source_for : HeaderValue → String → Result Value TrafficSource
  traffic_source_for absent configured_token = ok other
  traffic_source_for (many tokens) configured_token = ok other
  traffic_source_for (one token) configured_token =
      if str_eq configured_token "" then ok other else source_of_tokens token configured_token

  -- The listener of `finish`.
  unfoldable pub on_finish :
      String → FinishedRequest → ApiGatewayMetrics → Result Value ApiGatewayMetrics
  unfolding traffic_source_for observe_request
  on_finish load_test_metrics_token request metrics = do
    source ←
        traffic_source_for (request.headers "x-ticketing-load-test-token") load_test_metrics_token
    ok (
        observe_request request.method (route_label request.route) request.status request.seconds
          source metrics)
