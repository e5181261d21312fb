-- ===== src/Boundary/Reservations/Client.antt =====
-- The gateway's reply to what the server of the orders service answers.
use polyglot_ticketing_v.Base.{
  ℕ, pos, ◌/◌, ◌%◌, ◌≤◌, String, ◌≡◌, refl, ap, ◌∙◌, some, [], ◌∷◌, Result, ok, err, map_err, ◌>>=◌,
  arith,
}
use polyglot_ticketing_v.Value.Json.{Json, RoundTrips}
use polyglot_ticketing_v.Contracts.ErrorItem.{ErrorItem}
use polyglot_ticketing_v.Platform.Dates.{DateApi, last_time}
use polyglot_ticketing_v.Gateway.Errors.{throw_gateway_grpc_error}
use polyglot_ticketing_v.Gateway.Errors.Backend.{catch-throw_gateway_grpc_error}
use polyglot_ticketing_v.Gateway.Errors.Filter.{Reply, catch}
use polyglot_ticketing_v.Gateway.Dates.RoundTrip.{to_date_whole}
use polyglot_ticketing_v.Gateway.Dates.{to_date, iso_string}
use polyglot_ticketing_v.Gateway.Identity.AuthService.{invalid_item}
use polyglot_ticketing_v.Gateway.Orders
use polyglot_ticketing_v.Gateway.Orders.{
  RestStatus, OrderResponse, OrderCreationResult, OrdersGrpcService, CreateOrderGrpcResponse,
}
use polyglot_ticketing_v.Orders.{
  Status, created, canceled, awaiting_payment, complete, Order, ReservationResult,
}
use polyglot_ticketing_v.Orders.Server
use polyglot_ticketing_v.Orders.Server.{StatusError, item_value, payload}
use polyglot_ticketing_v.Boundary.Replies.{wire_reply}
use polyglot_ticketing_v.Boundary.Reservations.{
  orders_writer, to_wire, rest_status, shown, shown_result,
}

to_order_status-rest :
    (s : Status) → Orders.to_order_status (Server.to_order_status s) ≡ ok (rest_status s)
unfolding Orders.to_order_status
to_order_status-rest created = refl
to_order_status-rest canceled = refl
to_order_status-rest awaiting_payment = refl
to_order_status-rest complete = refl

module _ (json : Json) (dates : DateApi) where
  -- The gateway's answer to what the orders service answers.
  abbrev pub gateway_reply :
      Result StatusError CreateOrderGrpcResponse → Result Reply OrderCreationResult
  gateway_reply r = map_err catch (
      map_err (λ e. throw_gateway_grpc_error json e (some (invalid_item "Order data is invalid.")))
        (map_err (to_wire json) r >>= Orders.to_create_order_response dates))

  pub gateway_reply-err :
      (code : ℕ) (e : ErrorItem)
      → RoundTrips json (payload (record { code = code; errors = e ∷ [] }))
      → gateway_reply (err (record { code = code; errors = e ∷ [] }))
        ≡ err (wire_reply (invalid_item "Order data is invalid.") code (e ∷ []))
  unfolding payload
  gateway_reply-err code e trip =
      ap (λ reply. err reply)
        (catch-throw_gateway_grpc_error json orders_writer (pos code) e []
          (some (invalid_item "Order data is invalid.")) trip)

  to_date-timestamp : (t : ℕ) → t ≤ last_time → to_date dates (Server.timestamp t) ≡ pos t
  to_date-timestamp t h =
      to_date_whole dates (t / 1000) (t % 1000) (omega arith) (omega arith) ∙ ap pos (omega arith)

  module _ (iso : ℕ → String)
      (texts : (t : ℕ) → t ≤ last_time → dates.to_iso_string (pos t) ≡ some (iso t)) where
    iso_string-timestamp :
        (t : ℕ) → t ≤ last_time → iso_string dates (to_date dates (Server.timestamp t)) ≡ ok (iso t)
    unfolding iso_string
    iso_string-timestamp t h = rw (to_date-timestamp t h, texts t h)

    to_order_response-shown :
        (o : Order)
        → o.expires_at ≤ last_time
        → Orders.to_order_response dates (Server.to_order_response o) ≡ ok (shown iso o)
    unfolding Orders.to_order_response Server.to_order_response
    to_order_response-shown o h =
        rw (iso_string-timestamp o.expires_at h, to_order_status-rest o.status)

    pub gateway_reply-ok :
        (r : ReservationResult)
        → r.order.expires_at ≤ last_time
        → gateway_reply (ok (Server.to_create_order_response r)) ≡ ok (shown_result iso r)
    unfolding Orders.to_create_order_response Server.to_create_order_response
    gateway_reply-ok r h = rw (to_order_response-shown r.order h)
