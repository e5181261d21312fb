-- ===== src/Stress.antt =====
-- The client of the tickets API that creates, updates and verifies tickets:
-- scripts/stress/tickets.js. The server is a state and `fetch`. What the script logs is left out.
pub mod Run
pub mod Script
pub mod Shown
pub mod Answers
pub mod Passing
pub mod Server
pub mod Serving
use polyglot_ticketing_v.Base.{
  ℕ, ℤ, pos, zero, suc, ◌+◌, String, Bool, true, false, not, ◌&&◌, ◌||◌, Option, none, some, List,
  [], ◌∷◌, Result, ok, err, leb, ◌==◌, str_eq, default_to, if◌then◌else◌,
}
use polyglot_ticketing_v.Base.Text.{append, trim}
use polyglot_ticketing_v.Base.Calls.{
  Call, pure, throw, lift, and_then, or_handle, ◌>>=◌, ◌>>◌, catching,
}
use polyglot_ticketing_v.Value.{
  Value, undefined, str, num, obj, entry, end, is_object, property, text_property,
}
use polyglot_ticketing_v.Value.Json.{Json}
use polyglot_ticketing_v.Platform.Numbers.{JsNumber, whole, is_safe_integer, NumberApi}

abbrev pub initial_price : ℕ
initial_price = 5

abbrev pub first_update_price : ℕ
first_update_price = 10

abbrev pub final_update_price : ℕ
final_update_price = 15

-- What the script throws: its own errors, with or without a cause, and what `fetch` and
-- `response.text` throw.
pub data Failure : Type 0 where
  stress_request_error : String → ℕ → Value → Failure
  plain_error : String → Failure
  with_cause : String → Failure → Failure
  thrown : Value → Failure

-- The status and the body of the error that `main` reports.
unfoldable pub find_stress_request_error : Failure → Option (ℕ × Value)
find_stress_request_error (stress_request_error message status body) = some (status, body)
find_stress_request_error (plain_error message) = none
find_stress_request_error (with_cause message cause) = find_stress_request_error cause
find_stress_request_error (thrown v) = none

abbrev pub limit_error : Failure
limit_error = plain_error "STRESS_LIMIT must be a positive integer"

abbrev pub checked_limit : JsNumber → Result Failure ℕ
checked_limit (whole (pos (suc n))) =
    if is_safe_integer (whole (pos (suc n))) then ok (suc n) else err limit_error
checked_limit _ = err limit_error

unfoldable pub read_positive_integer : NumberApi → Option String → ℕ → Result Failure ℕ
unfolding trim
read_positive_integer numbers none fallback = ok fallback
read_positive_integer numbers (some value) fallback =
    if str_eq (trim value) "" then ok fallback else checked_limit (numbers.number value)

pub record Config : Type 0 where
  pub cookie : String
  pub limit : ℕ
  pub tickets_url : String

-- A request with the headers of the script; a body is sent as JSON.
pub record Request : Type 0 where
  pub method : String
  pub url : String
  pub cookie : String
  pub body : Option Value

pub record Response : Type 0 where
  pub status : ℕ
  pub text : Result Value String

pub record Ticket : Type 0 where
  pub id : String
  pub price : ℕ
  pub title : String

-- The body of a response, and its status.
abbrev pub Answer : Type 0
Answer = Value × ℕ

-- `o === text`, and `o === n`, for a property of an object.
abbrev pub is_text : String → Option Value → Bool
is_text expected (some (str t)) = str_eq t expected
is_text expected _ = false

abbrev pub is_price : ℕ → Option Value → Bool
is_price expected (some (num (pos n))) = n == expected
is_price expected _ = false

abbrev pub shows : Value → Ticket → Bool
shows body ticket =
    is_object body
    && is_text ticket.id (property "id" body)
    && is_price ticket.price (property "price" body)
    && is_text ticket.title (property "title" body)

abbrev pub created_id : Option String → Option String
created_id none = none
created_id (some id) = if str_eq id "" then none else some id

abbrev pub ticket_body : ℕ → String → Value
ticket_body price title = obj (entry "price" (num (pos price)) (entry "title" (str title) end))

-- What the script takes from the engine: `JSON`, the message of a thrown value, the text of a
-- natural number, and `encodeURIComponent`.
pub record Engine : Type 0 where
  pub json : Json
  pub text_of : Value → String
  pub decimal : ℕ → String
  pub encode_uri_component : String → String

module _ (engine : Engine) where
  open engine use {json, text_of, decimal, encode_uri_component}

  unfoldable pub error_message : Failure → String
  error_message (stress_request_error message status body) = message
  error_message (plain_error message) = message
  error_message (with_cause message cause) = message
  error_message (thrown v) = text_of v

  -- `rawBody === '' ? undefined : JSON.parse(rawBody)`, or the text where that throws.
  abbrev pub body_of : String → Value
  body_of raw_body =
      if str_eq raw_body "" then undefined else default_to (str raw_body) (json.parse raw_body)

  abbrev pub is_ok : ℕ → Bool
  is_ok status = leb 200 status && leb status 299

  unfoldable pub assert_status : Answer → ℕ → String → Result Failure (Unit {0})
  assert_status (body, status) expected action =
      if status == expected
      then ok tt
      else err (
          plain_error (
            append action (
              append " returned "
                (append (decimal status) (append "; expected " (decimal expected))))))

  unfoldable pub assert_ticket : Value → Ticket → String → Result Failure (Unit {0})
  assert_ticket body expected action =
      if shows body expected
      then ok tt
      else err (
          plain_error
            (append action (append " returned an unexpected ticket: " (json.stringify body))))

  unfoldable pub ticket_url : String → String → String
  ticket_url tickets_url ticket_id =
      append tickets_url (append "/" (encode_uri_component ticket_id))

  module _ {S : Type 0} (fetch : Request → S → Result Value Response × S) where
    -- `await fetch(...)` and `await response.text()`; the first is caught and thrown on.
    abbrev pub fetched : String → Result Value Response × S → Result Failure Response × S
    fetched url (ok response, s) = (ok response, s)
    fetched url (err e, s) = (
      err (
          with_cause (append "Request to " (append url (append " failed: " (text_of e))))
            (thrown e)),
      s,
    )

    abbrev pub read_text : Result Value String → Result Failure String
    read_text (ok text) = ok text
    read_text (err e) = err (thrown e)

    unfoldable pub request_json : Config → String → Option Value → String → Call Failure S Answer
    request_json config method body url = do
      response ← λ s.
          fetched url
            (fetch (record { method = method; url = url; cookie = config.cookie; body = body }) s)
      raw_body ← lift (read_text response.text)
      if not (is_ok response.status)
          then throw (
              stress_request_error
                (append "Request to " (append url (append " returned " (decimal response.status))))
                response.status (body_of raw_body))
          else pure (body_of raw_body, response.status)

    abbrev pub id_of : Value → Result Failure String
    id_of body = elim (created_id (text_property "id" body)) [
      | none ↦ err (
          plain_error
            (append "Ticket creation returned an unexpected response: " (json.stringify body)))
      | some id ↦ ok id
    ]
