-- ===== src/Tests/Stress.antt =====
-- A run of the stress script against a server that answers it as it should.
use polyglot_ticketing_v.Base.{
  ℕ, Bool, ◌+◌, pos, String, Option, none, some, Result, ok, str_eq, ◌==◌, if◌then◌else◌,
}
use polyglot_ticketing_v.Value.{Value, obj, entry, end, str, num}
use polyglot_ticketing_v.Stress.{Engine, Request, Response}
use polyglot_ticketing_v.Base.Text.{append}

abbrev document : String → ℕ → String → Value
document id price title =
    obj (entry "id" (str id) (entry "price" (num (pos price)) (entry "title" (str title) end)))

-- The documents of the three answers.
abbrev parse : String → Option Value
parse text =
    if str_eq text "created"
    then some (document "t1" 5 "stress-ticket-run-1")
    else if str_eq text "first"
    then some (document "t1" 10 "stress-ticket-run-1-first-update")
    else if str_eq text "second"
    then some (document "t1" 15 "stress-ticket-run-1-second-update")
    else none

abbrev engine : Engine
engine = record {
  json = record { parse = parse; stringify = λ v. "{...}" };
  text_of = λ v. "error";
  decimal = λ n. "1";
  encode_uri_component = λ s. s;
}

-- The state counts the requests.
abbrev answer_to : String → ℕ → Response
answer_to method n =
    if str_eq method "POST"
    then record { status = 201; text = ok "created" }
    else record { status = 200; text = ok (if n == 1 then "first" else "second") }

abbrev fetch : Request → ℕ → Result Value Response × ℕ
fetch request n = (ok (answer_to request.method n), n + 1)

-- The environment of the script, with one cycle.
abbrev environment : String → Option String
environment name = if str_eq name "STRESS_LIMIT" then some "1" else none

abbrev resolve : String → String → Result Value String
resolve path base = ok (append base path)

abbrev fetch_with : Bool → Request → ℕ → Result Value Response × ℕ
fetch_with insecure_tls = fetch
