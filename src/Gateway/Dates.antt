-- ===== src/Gateway/Dates.antt =====
-- `toDate`, which apps/api-gateway/src/orders/orders.service.ts and
-- apps/api-gateway/src/identity/auth.controller.ts both declare, and `toISOString`.
pub mod RoundTrip
use polyglot_ticketing_v.Base.{ℤ, pos, String, Option, none, some, scale, Result, ok, err}
use polyglot_ticketing_v.Value.{Value, obj, str, entry, end}
use polyglot_ticketing_v.Platform.Dates.{DateApi, Timestamp}

module _ (dates : DateApi) where
  open dates use {number, times, plus, over, time_of, to_iso_string}

  unfoldable pub to_date : Timestamp → ℤ
  to_date timestamp = time_of (
      plus (times (number timestamp.seconds) (number (pos 1_000)))
        (over (number timestamp.nanos) (number (pos 1_000_000))))

  abbrev pub or_range_error : Option String → Result Value String
  or_range_error none = err (obj (entry "message" (str "Invalid time value") end))
  or_range_error (some text) = ok text

  -- `date.toISOString()`, a `RangeError` on an invalid date.
  unfoldable pub iso_string : ℤ → Result Value String
  iso_string time = or_range_error (to_iso_string time)
