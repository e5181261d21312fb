-- ===== src/Gateway/Dates/RoundTrip.antt =====
-- A time on its way from Identity to the client.
use polyglot_ticketing_v.Base.{
  ℕ, ◌+◌, ◌*◌, ◌/◌, ◌%◌, ◌≤◌, ◌<◌, ◌≡◌, ◌≢◌, ◌-◌, suc, zero, refl, ◌∙◌, ap, pos, negsuc, negate,
  scale, arith,
}
use polyglot_ticketing_v.Platform.Dates.{DateApi, last_time}
use polyglot_ticketing_v.Gateway.Dates.{to_date}
use polyglot_ticketing_v.Identity.Timestamp.{to_timestamp}

-- A timestamp in whole milliseconds is the sum of its parts.
pub to_date_whole :
    (dates : DateApi) (s m : ℕ)
    → m < 1000
    → s * 1000 + m ≤ last_time
    → to_date dates (record { seconds = pos s; nanos = pos (m * 1_000_000) }) ≡ pos (s * 1000 + m)
unfolding to_date
to_date_whole dates s m below h =
    ap
      (λ x. dates.time_of (
        dates.plus x
          (dates.over (dates.number (pos (m * 1_000_000))) (dates.number (pos 1_000_000)))))
      (dates.times_whole s 1_000 (omega arith))
    ∙ ap (λ x. dates.time_of (dates.plus (dates.number (pos (s * 1_000))) x))
        (dates.over_whole m 1_000_000 (omega arith) (omega arith))
    ∙ ap (λ x. dates.time_of x) (dates.plus_whole (s * 1_000) m (omega arith))
    ∙ dates.time_of_whole (s * 1_000 + m) h

-- A time from 1970 on that a `Date` can hold comes back from its timestamp to the millisecond.
pub to_date-to_timestamp :
    (dates : DateApi) (ms : ℕ) → ms ≤ last_time → to_date dates (to_timestamp (pos ms)) ≡ pos ms
unfolding to_timestamp
to_date-to_timestamp dates ms h =
    to_date_whole dates (ms / 1000) (ms % 1000) (omega arith) (omega arith) ∙ ap pos (omega arith)

-- A timestamp of a time from 1970 on is a protobuf timestamp: the nanoseconds are at least 0 and
-- less than a second, and seconds and nanoseconds add up to the time.
pub to_timestamp-in_range :
    (ms : ℕ)
    → (s n : ℕ) × ((to_timestamp (pos ms)).seconds ≡ pos s)
      × ((to_timestamp (pos ms)).nanos ≡ pos n)
      × (n < 1_000_000_000)
      × (s * 1_000_000_000 + n ≡ ms * 1_000_000)
unfolding to_timestamp
to_timestamp-in_range ms = (ms / 1000, ms % 1000 * 1_000_000, refl, refl, omega arith, omega arith)

negate-pos : (m : ℕ) → m ≢ 0 → negate m ≡ negsuc (m - 1)
negate-pos zero h = absurd (h refl)
negate-pos (suc m) h = ap negsuc (omega arith)

scale-negate : (r : ℕ) → r ≢ 0 → (k : ℕ) × (scale (negate r) 1_000_000 ≡ negsuc k)
scale-negate zero h = absurd (h refl)
scale-negate (suc r) h = (suc r * 1_000_000 - 1, negate-pos (suc r * 1_000_000) (omega arith))

-- A time before 1970 that is no whole second has a timestamp with negative nanoseconds, which
-- protobuf rules out.
pub to_timestamp-negative :
    (n : ℕ) → (n + 1) % 1000 ≢ 0 → (k : ℕ) × ((to_timestamp (negsuc n)).nanos ≡ negsuc k)
unfolding to_timestamp
to_timestamp-negative n h = scale-negate (suc n % 1000) (omega arith)
