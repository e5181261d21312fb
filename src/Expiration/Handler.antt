-- ===== src/Expiration/Handler.antt =====
-- apps/expiration/src/expiration/order-created.handler.ts. Decoding protobuf and its timestamps is
-- third-party.
use polyglot_ticketing_v.Base.{
  ℕ, ℤ, String, not, ◌||◌, Option, none, some, List, Result, str_eq, if◌then◌else◌,
}
use polyglot_ticketing_v.Base.Text.{trim}
use polyglot_ticketing_v.Value.{Value}
use polyglot_ticketing_v.Contracts.OrderStatus.{OrderStatus, is_created}
use polyglot_ticketing_v.Platform.Dates.{Timestamp}
use polyglot_ticketing_v.Expiration.Effects.{Run, invalid_event, throw}
use polyglot_ticketing_v.Expiration.Scheduler.{schedule}

-- The fields of `orders.v1.OrderCreated` that the handler reads.
pub record OrderCreated : Type 0 where
  pub order_id : String
  pub order_status : OrderStatus
  pub expires_at : Option Timestamp

pub record Decoder : Type 0 where
  -- `fromBinary(OrderCreatedSchema, payload)`, `none` where it throws.
  pub from_binary : List ℕ → Option OrderCreated
  -- `timestampDate(timestamp).getTime()`, `none` where that is not a number.
  pub timestamp_date : Timestamp → Option ℤ

module _ (decoder : Decoder) (add : Result Value (Unit {0})) (now : ℤ) where
  open decoder use {from_binary, timestamp_date}

  abbrev pub handle_time : String → Option ℤ → Run (Unit {0})
  handle_time order_id none = throw invalid_event
  handle_time order_id (some expires_at) = schedule add now order_id expires_at

  abbrev pub handle_timestamp : String → Option Timestamp → Run (Unit {0})
  handle_timestamp order_id none = throw invalid_event
  handle_timestamp order_id (some t) = handle_time order_id (timestamp_date t)

  abbrev pub handle_event : Option OrderCreated → Run (Unit {0})
  handle_event none = throw invalid_event
  handle_event (some event) =
      if str_eq (trim event.order_id) "" || not (is_created event.order_status)
      then throw invalid_event
      else handle_timestamp event.order_id event.expires_at

  unfoldable pub handle : List ℕ → Run (Unit {0})
  unfolding schedule trim
  handle payload = handle_event (from_binary payload)
