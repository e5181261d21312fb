-- ===== src/Stress/Script/Ending.antt =====
-- What it means that the script ends with exit code 0.
use polyglot_ticketing_v.Base.{◌≤◌, String, ◌≡◌, Bool, Option, List, length, Result, ok}
use polyglot_ticketing_v.Value.{Value}
use polyglot_ticketing_v.Platform.Numbers.{max_safe_integer, NumberApi}
use polyglot_ticketing_v.Stress.{Engine, Config, Request, Response, Ticket}
use polyglot_ticketing_v.Stress.Run.{run_cycles}
use polyglot_ticketing_v.Stress.Passing.{Finals, SeenAll}
use polyglot_ticketing_v.Stress.Script.{read_config}

module _ (engine : Engine) {S : Type 0} (fetch : Bool → Request → S → Result Value Response × S)
    (run_id : String) (numbers : NumberApi) (resolve : String → String → Result Value String)
    (cookie : String) (env : String → Option String) (s : S) where
  -- What a script has done that ends well, with the server in a state.
  abbrev pub Passed : S → Type 0
  Passed t =
      (insecure_tls : Bool) × (config : Config) × (tickets : List Ticket) × (u : S) × (read_config
          numbers resolve cookie env
        ≡ ok (insecure_tls, config))
      × (1 ≤ config.limit)
      × (config.limit ≤ max_safe_integer)
      × (run_cycles engine (fetch insecure_tls) config run_id 0 config.limit s ≡ (ok tickets, u))
      × (length tickets ≡ config.limit)
      × Finals engine (fetch insecure_tls) config run_id 0 tickets
      × SeenAll engine (fetch insecure_tls) config tickets u t
