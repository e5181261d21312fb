-- ===== src/Boundary/Replies.antt =====
-- The gateway's replies to the errors of Identity.
use polyglot_ticketing_v.Base.{ℕ, pos, ◌≡◌, some, List, [], ◌∷◌, map, ltb, if◌then◌else◌}
use polyglot_ticketing_v.Value.Json.{Json, RoundTrips}
use polyglot_ticketing_v.Contracts.ErrorItem.{ErrorItem}
use polyglot_ticketing_v.Gateway.Errors
use polyglot_ticketing_v.Gateway.Errors.{
  error_response, throw_gateway_grpc_error, http_status_from_grpc_code, get_grpc_error_response,
  has_error_items, is_grpc_status_error,
}
use polyglot_ticketing_v.Gateway.Errors.Filter.{Reply, catch}
use polyglot_ticketing_v.Gateway.Errors.Secrecy.{fault_reply}
use polyglot_ticketing_v.Gateway.Errors.Backend.{
  catch-throw_gateway_grpc_error, catch-throw_gateway_grpc_error_plain, reply_by_code, grpc_error,
}
use polyglot_ticketing_v.Identity.Errors.{details}
use polyglot_ticketing_v.Boundary.{identity_writer, to_wire}

abbrev pub client_reply : ℕ → List ErrorItem → Reply
client_reply status items = record {
  status = status;
  body = error_response (map Errors.item_value items);
}

-- The reply to an error of Identity.
abbrev pub wire_reply : ErrorItem → ℕ → List ErrorItem → Reply
wire_reply fallback code [] = reply_by_code fallback (some (pos code))
wire_reply fallback code (item ∷ items) =
    let status = http_status_from_grpc_code (pos code) in
    if ltb status 500 then client_reply status (item ∷ items) else fault_reply status

pub catch-to_wire :
    (json : Json) (fallback : ErrorItem) (code : ℕ) (items : List ErrorItem)
    → RoundTrips json (details (record { code = code; errors = items }))
    → catch (
        throw_gateway_grpc_error json
          (to_wire json (record { code = code; errors = items }))
          (some fallback))
      ≡ wire_reply fallback code items
unfolding details get_grpc_error_response has_error_items is_grpc_status_error
catch-to_wire json fallback code [] trip =
    catch-throw_gateway_grpc_error_plain json
      (grpc_error (pos code) (json.stringify (details (record { code = code; errors = [] }))))
      fallback (rw trip)
catch-to_wire json fallback code (item ∷ items) trip =
    catch-throw_gateway_grpc_error json identity_writer (pos code) item items (some fallback) trip
