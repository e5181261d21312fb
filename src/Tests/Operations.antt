-- ===== src/Tests/Operations.antt =====
-- Examples of the metrics, of the replay command and of signing out.
use polyglot_ticketing_v.Base.{
  ℕ, ℤ, pos, String, ◌≡◌, ◌≢◌, ◌↔◌, refl, Option, some, [], Result, ok, err,
}
use polyglot_ticketing_v.Base.Text.{trim}
use polyglot_ticketing_v.Value.{str}
use polyglot_ticketing_v.Gateway.Identity.Headers.{one}
use polyglot_ticketing_v.Gateway.Metrics.{traffic_source_for}
use polyglot_ticketing_v.Gateway.Metrics.LoadTest.{Decides, traffic_source_for-Decides}
use polyglot_ticketing_v.Identity.Metrics.{IdentityMetrics, Call}
use polyglot_ticketing_v.Expiration.ReplayCommand.{Calls, main, exit_code}
use polyglot_ticketing_v.Expiration.ReplayCommand.Outcome.{Replays, main-Replays_iff}
use polyglot_ticketing_v.Tests.Samples.Node.{buffers, numbers}

traffic_source_for-Decides_example :
    Decides buffers
      (traffic_source_for buffers (one "secret") "secret")
      ((◌≢◌ {A = String} "secret" "") × (one "secret" ≡ one "secret"))
traffic_source_for-Decides_example = traffic_source_for-Decides buffers (one "secret") "secret"

abbrev current_user_call : Call
current_user_call = record {
  class_name = "IdentityController";
  handler_name = "currentUser";
  seconds = str "0.01";
}

abbrev no_observations : IdentityMetrics
no_observations = record { requests = []; durations = [] }

-- What the handler throws is its code.
abbrev code_of : ℕ → Option ℤ
code_of code = some (pos code)

abbrev refused : Result ℕ String
refused = err 16

-- The dead letter queue has one message, at sequence 3.
abbrev calls : Calls
calls = record { init = ok tt; replay = λ s. ok 12; shutdown = ok tt }

main-Replays_iff_example :
    (exit_code (main numbers calls (some "111")) ≡ 0)
    ↔ Replays numbers calls (some "111") (main numbers calls (some "111")).1
main-Replays_iff_example = main-Replays_iff numbers calls (some "111")

-- The command with the unary text of 3 goes through.
main_test : exit_code (main numbers calls (some "111")) ≡ 0
unfolding main exit_code trim
main_test = refl
