-- ===== src/Orders.antt =====
-- The orders service, apps/orders, in Go: its data, order/order.go, and its database, the tables of
-- migrations. A row's key is unique, the text of a UUID; a transaction is one step, as the service's
-- statements lock the rows that they change. Times are whole milliseconds.
pub mod Repository
pub mod History
pub mod Service
pub mod Server
use polyglot_ticketing_v.Base.{ℕ, ◌*◌, String, Bool, true, false, List}

-- `ExpirationWindow`
abbrev pub expiration_window : ℕ
expiration_window = 15 * 60 * 1000

pub data Status : Type 0 where
  created canceled awaiting_payment complete : Status

pub record Ticket : Type 0 where
  pub aggregate_version : ℕ
  pub id : String
  pub title : String
  pub price : ℕ

pub record Order : Type 0 where
  pub aggregate_version : ℕ
  pub expires_at : ℕ
  pub id : String
  pub status : Status
  pub ticket_id : String
  pub user_id : String

pub record TicketReservationInput : Type 0 where
  pub expires_at : ℕ
  pub ticket_id : String
  pub user_id : String

pub record ReservationResult : Type 0 where
  pub created : Bool
  pub order : Order

-- The errors of the service; the database's are `duplicate_key`, for a key that is there already,
-- and `invalid_text`, for a text that it does not read as a UUID.
pub data OrderError : Type 0 where
  invalid_ticket_event invalid_expiration_event invalid_payment_event : OrderError
  not_found order_not_cancelable order_not_found reserved : OrderError
  ticket_event_version_gap unsupported_subject : OrderError
  duplicate_key invalid_text : OrderError

-- The events of the outbox, with what the consumers read of them.
pub data OutboxEvent : Type 0 where
  order_created : Order → Ticket → OutboxEvent
  order_canceled : (order_id ticket_id : String) (aggregate_version : ℕ) → OutboxEvent

-- The tables; the last row first.
pub record Database : Type 0 where
  pub tickets : List Ticket
  pub orders : List Order
  pub processed_events : List String
  pub outbox_events : List OutboxEvent

-- `status IN ('Created', 'AwaitingPayment')`
abbrev pub is_pending : Status → Bool
is_pending created = true
is_pending awaiting_payment = true
is_pending _ = false

abbrev pub is_created : Status → Bool
is_created created = true
is_created _ = false

abbrev pub is_complete : Status → Bool
is_complete complete = true
is_complete _ = false

abbrev pub is_canceled : Status → Bool
is_canceled canceled = true
is_canceled _ = false
