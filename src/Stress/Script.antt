-- ===== src/Stress/Script.antt =====
-- The script as a command: readConfig of scripts/stress/tickets.js, and the end of the script, which
-- runs `main` and reports how it ended. The progress on the console is left out.
pub mod Ending
use polyglot_ticketing_v.Base.{
  ℕ, ◌==◌, String, Bool, true, false, Option, none, some, Result, ok, err, ◌>>=◌, map_err,
  default_to, str_eq, if◌then◌else◌,
}
use Prim.Native.Char.{Char, code}
use Prim.Native.String.{[], ◌∷◌}
use polyglot_ticketing_v.Value.{Value}
use polyglot_ticketing_v.Platform.Numbers.{NumberApi}
use polyglot_ticketing_v.Stress.{
  Engine, Failure, plain_error, Config, Request, Response, error_message, read_positive_integer,
  find_stress_request_error,
}
use polyglot_ticketing_v.Stress.Run.{main}

abbrev pub default_base_url : String
default_base_url = "http://localhost:3000"

abbrev pub default_limit : ℕ
default_limit = 200

-- `text.replace(/\/$/, '')`
unfoldable pub without_last_slash : String → String
without_last_slash [] = []
without_last_slash (c ∷ []) = if code c == 47 then [] else c ∷ []
without_last_slash (c ∷ d ∷ s) = c ∷ without_last_slash (d ∷ s)

abbrev pub is_one : Option String → Bool
is_one none = false
is_one (some value) = str_eq value "1"

-- The configuration, and whether TLS certificates go unchecked. The cookie is a literal of the
-- script; `resolve` is the text of `new URL(path, base)`, which throws on a base that is no URL.
unfoldable pub read_config :
    NumberApi
    → (String → String → Result Value String)
    → String
    → (String → Option String)
    → Result Failure (Bool × Config)
unfolding read_positive_integer without_last_slash
read_config numbers resolve cookie env =
    if str_eq cookie "" then err (plain_error "STRESS_COOKIE is required") else (do
      url ←
          map_err (λ e. plain_error "STRESS_BASE_URL must be a valid URL")
            (resolve "/api/tickets" (default_to default_base_url (env "STRESS_BASE_URL")))
      limit ← read_positive_integer numbers (env "STRESS_LIMIT") default_limit
      ok (
        is_one (env "STRESS_INSECURE_TLS"),
        record { cookie = cookie; limit = limit; tickets_url = without_last_slash url },
      ))

-- What is left behind of a run: the exit code, the message of the error, and the status and the
-- body of the request that failed.
pub record Report : Type 0 where
  pub exit_code : ℕ
  pub message : Option String
  pub response : Option (ℕ × Value)

abbrev pub report : Engine → Result Failure (Unit {0}) → Report
report engine (ok done) = record { exit_code = 0; message = none; response = none }
report engine (err e) = record {
  exit_code = 1;
  message = some (error_message engine e);
  response = find_stress_request_error e;
}

module _ (engine : Engine) {S : Type 0} (fetch : Bool → Request → S → Result Value Response × S)
    (run_id : String) where
  -- `fetch` with the setting of TLS that the configuration makes.
  abbrev pub with_config : S → Result Failure (Bool × Config) → Report × S
  with_config s (err e) = (report engine (err e), s)
  with_config s (ok (insecure_tls, config)) =
      let (r, t) = main engine (fetch insecure_tls) config run_id s in (report engine r, t)

  unfoldable pub run_script :
      NumberApi
      → (String → String → Result Value String)
      → String
      → (String → Option String)
      → S
      → Report × S
  unfolding read_config
  run_script numbers resolve cookie env s = with_config s (read_config numbers resolve cookie env)
