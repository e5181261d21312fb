-- ===== src/Identity/Metrics.antt =====
-- The metrics of the identity service: apps/identity/src/observability/prometheus.ts. The counter
-- and the histogram are third-party: they are the observations that they are given.
pub mod Interception
use polyglot_ticketing_v.Base.{
  ℕ, zero, suc, ℤ, pos, negsuc, String, Option, none, some, List, [], ◌∷◌, Result, ok, err,
  default_to,
}
use polyglot_ticketing_v.Base.Text.{append}
use polyglot_ticketing_v.Value.{Value}

pub record Labels : Type 0 where
  pub method : String
  pub code : String

-- What the counter and the histogram have been given, the last first; a duration is a number.
pub record IdentityMetrics : Type 0 where
  pub requests : List Labels
  pub durations : List (Labels × Value)

unfoldable pub observe_request : String → String → Value → IdentityMetrics → IdentityMetrics
observe_request method code duration_seconds metrics =
    let labels : Labels = record { method = method; code = code } in
    record metrics {
      requests = labels ∷ metrics.requests;
      durations = (labels, duration_seconds) ∷ metrics.durations;
    }

abbrev pub codes : List String
codes =
    "OK" ∷ "Canceled" ∷ "Unknown" ∷ "InvalidArgument" ∷ "DeadlineExceeded" ∷ "NotFound"
    ∷ "AlreadyExists" ∷ "PermissionDenied" ∷ "ResourceExhausted" ∷ "FailedPrecondition" ∷ "Aborted"
    ∷ "OutOfRange" ∷ "Unimplemented" ∷ "Internal" ∷ "Unavailable" ∷ "DataLoss" ∷ "Unauthenticated"
    ∷ []

-- `codes[n]`; `none` from the length on.
unfoldable pub nth : ℕ → List String → Option String
nth n [] = none
nth zero (s ∷ list) = some s
nth (suc n) (s ∷ list) = nth n list

abbrev pub or_unknown : Option String → String
or_unknown none = "Unknown"
or_unknown (some name) = name

-- A code is `undefined` or a whole number.
unfoldable pub grpc_code : Option ℤ → String
unfolding nth
grpc_code none = "Unknown"
grpc_code (some (negsuc n)) = "Unknown"
grpc_code (some (pos n)) = or_unknown (nth n codes)

-- The call of a method, and the time that it took.
pub record Call : Type 0 where
  pub class_name : String
  pub handler_name : String
  pub seconds : Value

abbrev pub method_name : Call → String
method_name call = append call.class_name (append "." call.handler_name)

-- `code_of` reads the property `code` of what a handler throws: a framework's exception, or any
-- other.
module _ {ℓ κ} {E : Type ℓ} {A : Type κ} (code_of : E → Option ℤ) where
  -- The value of `code` by the time that the call is final.
  abbrev pub final_code : Result E A → String
  final_code (ok a) = "OK"
  final_code (err e) = grpc_code (code_of e)

  -- The result of the handler goes on, and is observed.
  unfoldable pub intercept : Call → Result E A → IdentityMetrics → Result E A × IdentityMetrics
  unfolding grpc_code observe_request
  intercept call handled metrics =
      (handled, observe_request (method_name call) (final_code handled) call.seconds metrics)
