-- ===== src/Expiration/DeadLetter.antt =====
-- Parking an event in the dead letter queue and replaying it:
-- apps/expiration/src/expiration/jetstream.service.ts.
pub mod Copying
pub mod Replay
use Prim.Native.String.{[], ◌∷◌}
use polyglot_ticketing_v.Base.{
  ℕ, ◌+◌, Char, code, String, Bool, true, false, not, ◌&&◌, ◌||◌, Option, none, some, List, [], ◌∷◌,
  Result, ok, err, leb, ◌==◌, str_eq, default_to, if◌then◌else◌,
}
use polyglot_ticketing_v.Base.Text.{append, starts_with}
use polyglot_ticketing_v.Value.{Value, obj, str, entry, end, text_property}
use polyglot_ticketing_v.Platform.MsgHeaders.{MsgHeadersApi, Entries, get}
use polyglot_ticketing_v.Expiration.Constants.{
  order_created_dead_letter_subject, order_created_durable_name, order_created_subject,
}

abbrev pub dead_letter_header : String
dead_letter_header = "X-Expiration-DLQ-"

abbrev pub header_key : String → String
header_key name = append dead_letter_header name

abbrev pub is_line_break : ℕ → Bool
is_line_break c = c == 13 || c == 10

abbrev pub blank : Char
blank = " "

-- `value.replace(/[\r\n]/g, ' ')`
unfoldable pub replace_line_breaks : String → String
replace_line_breaks [] = []
replace_line_breaks (c ∷ s) = (if is_line_break (code c) then blank else c) ∷ replace_line_breaks s

-- `sanitizeHeaderValue`, over the message of the failure.
unfoldable pub sanitize_header_value : String → String
unfolding replace_line_breaks
sanitize_header_value value = replace_line_breaks value

-- The lower case of a letter, and equality after `toLowerCase` with a text of ASCII letters.
abbrev pub lower : ℕ → ℕ
lower c = if leb b'A' c && leb c b'Z' then c + 32 else c

abbrev pub lower_eq : String → String → Bool
lower_eq [] [] = true
lower_eq (c ∷ s) (d ∷ t) = lower (code c) == code d && lower_eq s t
lower_eq _ _ = false

-- The keys that `withoutDeadLetterHeaders` leaves out.
unfoldable pub is_left_out : String → Bool
unfolding starts_with
is_left_out key = starts_with dead_letter_header key || lower_eq key "nats-msg-id"

-- The delivery of an event, as far as parking reads it.
pub record Delivery (Headers : Type 0) : Type 0 where
  pub payload : List ℕ
  pub headers : Option Headers
  pub delivery_count : ℕ
  pub stream : String
  pub stream_sequence : ℕ
  pub subject : String

-- A message for `publish`, and a message that a stream holds.
pub record StreamMessage (Headers : Type 0) : Type 0 where
  pub subject : String
  pub payload : List ℕ
  pub message_id : String
  pub headers : Headers

module _ (api : MsgHeadersApi) (decimal : ℕ → String) where
  open api use {MsgHdrs, empty, append as append_value, set, entries}

  abbrev pub append_values : MsgHdrs → String → List String → MsgHdrs
  append_values copy key [] = copy
  append_values copy key (v ∷ vs) = append_values (append_value copy key v) key vs

  unfoldable pub clone_entries : MsgHdrs → Entries → MsgHdrs
  clone_entries copy [] = copy
  clone_entries copy ((key, values) ∷ rest) = clone_entries (append_values copy key values) rest

  abbrev pub entries_of : Option MsgHdrs → Entries
  entries_of none = []
  entries_of (some h) = entries h

  unfoldable pub clone_headers : Option MsgHdrs → MsgHdrs
  unfolding clone_entries
  clone_headers original = clone_entries empty (entries_of original)

  unfoldable pub copy_kept : MsgHdrs → Entries → MsgHdrs
  unfolding is_left_out
  copy_kept copy [] = copy
  copy_kept copy ((key, values) ∷ rest) =
      copy_kept (if is_left_out key then copy else append_values copy key values) rest

  unfoldable pub without_dead_letter_headers : MsgHdrs → MsgHdrs
  unfolding copy_kept
  without_dead_letter_headers original = copy_kept empty (entries original)

  abbrev pub set_all : MsgHdrs → List (String × String) → MsgHdrs
  set_all h [] = h
  set_all h ((name, value) ∷ rest) = set_all (set h (header_key name) value) rest

  -- The headers that `parkOrderCreated` sets, in order.
  abbrev pub park_fields : Delivery MsgHdrs → String → String → String → List (String × String)
  park_fields delivery failure_class failure now =
      ("Original-Subject", delivery.subject)
      ∷ ("Original-Stream", delivery.stream)
      ∷ ("Original-Stream-Sequence", decimal delivery.stream_sequence)
      ∷ ("Consumer", order_created_durable_name)
      ∷ ("Delivery-Count", decimal delivery.delivery_count)
      ∷ ("Failure-Class", failure_class)
      ∷ ("Failure-Reason", sanitize_header_value failure)
      ∷ ("Parked-At", now)
      ∷ []

  -- What `parkOrderCreated` publishes; `failure` is the message of the failure, `now` the time.
  unfoldable pub park_order_created :
      Delivery MsgHdrs → String → String → String → StreamMessage MsgHdrs
  unfolding clone_headers
  park_order_created delivery failure_class failure now = record {
    subject = order_created_dead_letter_subject;
    payload = delivery.payload;
    message_id =
        append "expiration-dlq-v1:"
          (append delivery.stream (append ":" (decimal delivery.stream_sequence)));
    headers =
        set_all (clone_headers delivery.headers) (park_fields delivery failure_class failure now);
  }

  abbrev pub new_error : String → Value
  new_error message = obj (entry "message" (str message) end)

  -- What `replayExpirationDeadLetter` publishes, for the message that the dead letter stream holds
  -- at the sequence. The quoted subject of the second error is left out.
  unfoldable pub replay_message :
      ℕ → Option (StreamMessage MsgHdrs) → Result Value (StreamMessage MsgHdrs)
  unfolding without_dead_letter_headers
  replay_message sequence none = err (new_error "message is not an Expiration DLQ message")
  replay_message sequence (some message) =
      if not (str_eq message.subject order_created_dead_letter_subject)
      then err (new_error "message is not an Expiration DLQ message")
      else if not
          (str_eq (get api message.headers (header_key "Original-Subject")) order_created_subject)
      then err (new_error "message has unsupported original subject")
      else ok (record {
        subject = get api message.headers (header_key "Original-Subject");
        payload = message.payload;
        message_id = append "expiration-dlq-replay-v1:" (decimal sequence);
        headers = without_dead_letter_headers message.headers;
      })
