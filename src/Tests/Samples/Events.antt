-- ===== src/Tests/Samples/Events.antt =====
-- An OrderCreated event, a decoder, and the outcomes of a delivery.
use polyglot_ticketing_v.Base.{
  ℕ, pos, refl, Option, none, some, List, [], ◌∷◌, ok, err, arith, eq_iff,
}
use polyglot_ticketing_v.Base.Text.{trim}
use polyglot_ticketing_v.Value.{str}
use polyglot_ticketing_v.Contracts.OrderStatus
use polyglot_ticketing_v.Platform.Dates.{Timestamp}
use polyglot_ticketing_v.Expiration.Handler.{OrderCreated, Decoder}
use polyglot_ticketing_v.Expiration.Consumer.{Environment}
use polyglot_ticketing_v.Expiration.Processor.Completion.{IsAccepted}

abbrev pub at_900 : Timestamp
at_900 = record { seconds = pos 900; nanos = pos 0 }

abbrev pub event : OrderCreated
event = record { order_id = "o1"; order_status = OrderStatus.created; expires_at = some at_900 }

-- A decoder that knows one payload.
abbrev pub decode : List ℕ → Option OrderCreated
decode [] = none
decode (b ∷ bs) = some event

abbrev pub decoder : Decoder
decoder = record { from_binary = decode; timestamp_date = λ t. some (pos 900_000) }

abbrev pub payload : List ℕ
payload = 1 ∷ []

abbrev pub working : Environment
working = record {
  now = pos 0;
  add = ok tt;
  park = ok tt;
  ack_handled = ok tt;
  ack_parked = ok tt;
  nak = ok tt;
}

-- Redis is down.
abbrev pub without_queue : Environment
without_queue = record working { add = err (str "down") }

pub event-IsAccepted : IsAccepted decoder payload event (pos 900_000)
unfolding trim
event-IsAccepted = record {
  timestamp = at_900;
  decoded = refl;
  named = λ e. ground (arith, eq_iff "o1" "");
  created = refl;
  expires = refl;
  timed = refl;
}
