-- ===== src/Tests/Gateway.antt =====
-- Examples of what crosses the gateway: cookies, headers and times.
use polyglot_ticketing_v.Base.{pos, ◌≡◌, some, [], ◌∷◌, arith}
use polyglot_ticketing_v.Base.Text.{trim}
use polyglot_ticketing_v.Gateway.Dates.{to_date}
use polyglot_ticketing_v.Identity.Timestamp.{to_timestamp}
use polyglot_ticketing_v.Gateway.Dates.RoundTrip.{to_date-to_timestamp}
use polyglot_ticketing_v.Gateway.Identity.Headers.{one}
use polyglot_ticketing_v.Gateway.Identity.Cookie.{get_cookie_value}
use polyglot_ticketing_v.Gateway.Identity.Cookie.Rendering.{get_cookie_value-render}
use polyglot_ticketing_v.Tests.Samples.{dates}

get_cookie_value-render_example : get_cookie_value (one "a=1; b=2") "b" ≡ some "2"
unfolding trim
get_cookie_value-render_example =
    get_cookie_value-render "b" (("a", "1") ∷ ("b", "2") ∷ []) (ground arith)

to_date-to_timestamp_example : to_date dates (to_timestamp (pos 1_500)) ≡ pos 1_500
to_date-to_timestamp_example = to_date-to_timestamp dates 1_500 (ground arith)
