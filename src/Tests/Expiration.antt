-- ===== src/Tests/Expiration.antt =====
-- Examples of the expiration service.
use polyglot_ticketing_v.Base.{
  ℕ, ◌≤◌, String, true, false, ◌≡◌, ◌≢◌, ◌⊎◌, refl, some, List, [], ◌∷◌, ok,
}
use polyglot_ticketing_v.Expiration.Constants.{
  order_created_subject, order_created_dead_letter_subject,
}
use polyglot_ticketing_v.Expiration.Metrics.{ExpirationMetrics}
use polyglot_ticketing_v.Expiration.Consumer.{handle_delivery, deliver}
use polyglot_ticketing_v.Expiration.Consumer.Settling.{
  settlements, safe_from, handle_delivery-safe, handle_delivery-settlements,
}
use polyglot_ticketing_v.Expiration.Consumer.Redelivery.{CanSettle, deliver_ends}
use polyglot_ticketing_v.Expiration.DeadLetter.{Delivery, StreamMessage}
use polyglot_ticketing_v.Tests.Samples.Events.{decoder, payload, working, without_queue}

working-CanSettle : CanSettle working
working-CanSettle = record { parks = refl; acks_handled = refl; acks_parked = refl }

without_queue-CanSettle : CanSettle without_queue
without_queue-CanSettle = record { parks = refl; acks_handled = refl; acks_parked = refl }

handle_delivery-safe_example :
    safe_from false (handle_delivery decoder without_queue payload 6).1 ≡ true
handle_delivery-safe_example = handle_delivery-safe decoder without_queue payload 6

handle_delivery-settlements_example :
    (settlements (handle_delivery decoder without_queue payload 1).1 ≡ 1)
    ⊎ ((settlements (handle_delivery decoder without_queue payload 1).1 ≡ 0)
        × ((handle_delivery decoder without_queue payload 1).0 ≢ ok tt))
handle_delivery-settlements_example = handle_delivery-settlements decoder without_queue payload 1

deliver_ends_example :
    (k : ℕ) × (deliver decoder payload 6 (λ k. without_queue) 1 ≡ some k) × (k ≤ 6)
deliver_ends_example =
    deliver_ends decoder payload (λ k. without_queue) (λ k h. without_queue-CanSettle)

abbrev delivery : Delivery (List (String × String))
delivery = record {
  payload = payload;
  headers = some (("traceparent", "00-1") ∷ ("Nats-Msg-Id", "o1") ∷ []);
  delivery_count = 6;
  stream = "ORDERS_EVENTS";
  stream_sequence = 7;
  subject = order_created_subject;
}

abbrev decimal : ℕ → String
decimal n = "7"

abbrev dead_letter : StreamMessage (List (String × String))
dead_letter = record {
  subject = order_created_dead_letter_subject;
  payload = payload;
  message_id = "expiration-dlq-v1:ORDERS_EVENTS:7";
  headers =
      ("X-Expiration-DLQ-Original-Subject", order_created_subject) ∷ ("traceparent", "00-1") ∷ [];
}

abbrev replayed : StreamMessage (List (String × String))
replayed = record {
  subject = order_created_subject;
  payload = payload;
  message_id = "expiration-dlq-replay-v1:7";
  headers = ("traceparent", "00-1") ∷ [];
}

abbrev fresh : ExpirationMetrics
fresh = record { operations = []; duration = [] }
