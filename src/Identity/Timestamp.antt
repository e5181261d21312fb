-- ===== src/Identity/Timestamp.antt =====
-- `toTimestamp` of apps/identity/src/identity/identity.service.ts. The time of a `Date` is a whole
-- number of milliseconds; the decimal text of the seconds is taken as its number.
use polyglot_ticketing_v.Base.{ℤ, remainder, floor_div, scale}
use polyglot_ticketing_v.Platform.Dates.{Timestamp}

unfoldable pub to_timestamp : ℤ → Timestamp
to_timestamp milliseconds = record {
  seconds = floor_div milliseconds 1000;
  nanos = scale (remainder milliseconds 1000) 1_000_000;
}
