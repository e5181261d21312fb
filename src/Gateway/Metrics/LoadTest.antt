-- ===== src/Gateway/Metrics/LoadTest.antt =====
-- Which requests count as those of the load test.
use polyglot_ticketing_v.Base.{
  String, ◌≡◌, ◌≢◌, ◌↔◌, refl, ap, Bool, true, false, Bool-cases, ◌∷◌, Result, ok, inl, inr, str_eq,
  ◌==◌, ==_iff, eq_iff, if◌then◌else◌, arith,
}
use polyglot_ticketing_v.Value.{Value}
use polyglot_ticketing_v.Platform.Buffer.{BufferApi}
use polyglot_ticketing_v.Gateway.Identity.Headers.{HeaderValue, absent, one, many}
use polyglot_ticketing_v.Gateway.Metrics.{
  TrafficSource, k6, other, Labels, ApiGatewayMetrics, observe_request, source_of_tokens,
  traffic_source_for, FinishedRequest, route_label, on_finish,
}

module _ (api : BufferApi) where
  open api use {from, length, timing_safe_equal, from_injective, timing_safe_equal-ok}

  -- A source that is given, and when it is k6.
  abbrev pub Decides : Result Value TrafficSource → Type 0 → Type 0
  Decides r P = (source : TrafficSource) × (r ≡ ok source) × ((source ≡ k6) ↔ P)

  other-ne-k6 : other ≡ k6 → ⊥
  other-ne-k6 h = ground arith

  same-length : (s t : String) → s ≡ t → (length (from s) == length (from t)) ≡ true
  same-length s t h = (==_iff (length (from s)) (length (from t))).1 (ap (λ u. length (from u)) h)

  of_equal-Decides :
      (s t : String) (equal : Bool)
      → (equal ≡ true) ↔ (from s ≡ from t)
      → Decides (ok (if equal then k6 else other)) (s ≡ t)
  of_equal-Decides s t true decides =
      (k6, refl, (λ h. from_injective s t (decides.0 refl), λ h. refl))
  of_equal-Decides s t false decides = (
    other,
    refl,
    (λ h. absurd (other-ne-k6 h), λ h. absurd (ground (arith, decides.1 (ap from h)))),
  )

  source_of_tokens-Decides :
      (supplied configured : String)
      → Decides (source_of_tokens api supplied configured) (supplied ≡ configured)
  source_of_tokens-Decides supplied configured =
      elim (Bool-cases (length (from supplied) == length (from configured))) [
        | inl same ↦
            let (equal, returned, decides) =
              timing_safe_equal-ok (from supplied) (from configured)
                ((==_iff (length (from supplied)) (length (from configured))).0 same) in
            rw (same, returned) (of_equal-Decides supplied configured equal decides)
        | inr differ ↦ (
          other,
          rw differ,
          (
            λ h. absurd (other-ne-k6 h),
            λ h. absurd (ground (arith, same-length supplied configured h, differ)),
          ),
        )
      ]

  -- Every request gets a source, whatever its token header is, and it counts as one of the load test
  -- exactly where a token is configured and the header is a single text that equals it: the
  -- comparison never meets buffers of different lengths, on which it would throw.
  pub traffic_source_for-Decides :
      (supplied : HeaderValue) (configured : String)
      → Decides
          (traffic_source_for api supplied configured)
          ((configured ≢ "") × (supplied ≡ one configured))
  unfolding traffic_source_for
  traffic_source_for-Decides absent configured =
      (other, refl, (λ h. absurd (other-ne-k6 h), λ h. absurd (ground (arith, h.1))))
  traffic_source_for-Decides (many tokens) configured =
      (other, refl, (λ h. absurd (other-ne-k6 h), λ h. absurd (ground (arith, h.1))))
  traffic_source_for-Decides (one token) configured = elim (Bool-cases (str_eq configured "")) [
    | inl empty ↦ (
      other,
      rw empty,
      (λ h. absurd (other-ne-k6 h), λ h. absurd (h.0 ((eq_iff configured "").0 empty))),
    )
    | inr set ↦
        let (source, returned, decides) = source_of_tokens-Decides token configured in
        (
          source,
          rw set returned,
          (
            λ h. (ground (arith, eq_iff configured "", set), ap one (decides.0 h)),
            λ h. decides.1 (token_eq token configured h.1),
          ),
        )
  ]
    where
      token_eq : (s t : String) → one s ≡ one t → s ≡ t
      token_eq s t h = cc

  -- The middleware records each finished request once, in the counter and in the histogram under the
  -- same labels, and never throws.
  pub on_finish-records :
      (token : String) (request : FinishedRequest) (metrics : ApiGatewayMetrics)
      → (labels : Labels) × (next : ApiGatewayMetrics) × (on_finish api token request metrics
          ≡ ok next)
        × (next.requests ≡ labels ∷ metrics.requests)
        × (next.durations ≡ (labels, request.seconds) ∷ metrics.durations)
        × (labels.route ≡ route_label request.route)
        × ((labels.traffic_source ≡ k6)
            ↔ ((token ≢ "") × (request.headers "x-ticketing-load-test-token" ≡ one token)))
  unfolding on_finish observe_request
  on_finish-records token request metrics =
      let (source, returned, decides) =
        traffic_source_for-Decides (request.headers "x-ticketing-load-test-token") token in
      (
        record {
          method = request.method;
          route = route_label request.route;
          status = request.status;
          traffic_source = source;
        },
        observe_request request.method (route_label request.route) request.status request.seconds
            source metrics,
        rw returned,
        refl,
        refl,
        refl,
        decides,
      )
