-- ===== src/Expiration/Constants.antt =====
-- apps/expiration/src/expiration/expiration.constants.ts
use polyglot_ticketing_v.Base.{ℕ, String}

abbrev pub expiration_job_name : String
expiration_job_name = "expiration-complete"

abbrev pub expiration_events_stream : String
expiration_events_stream = "EXPIRATION_EVENTS"

abbrev pub expiration_dead_letter_stream : String
expiration_dead_letter_stream = "EXPIRATION_DLQ"

abbrev pub expiration_complete_subject : String
expiration_complete_subject = "expiration.expiration.complete.v1"

abbrev pub orders_events_stream : String
orders_events_stream = "ORDERS_EVENTS"

abbrev pub order_created_subject : String
order_created_subject = "orders.order.created.v1"

abbrev pub order_created_durable_name : String
order_created_durable_name = "expiration-order-created-v1"

abbrev pub order_created_dead_letter_subject : String
order_created_dead_letter_subject = "dlq.expiration.order-created.v1"

abbrev pub order_created_max_retries : ℕ
order_created_max_retries = 5

abbrev pub expiration_publish_attempts : ℕ
expiration_publish_attempts = 5

abbrev pub expiration_publish_backoff_milliseconds : ℕ
expiration_publish_backoff_milliseconds = 1_000
