-- ===== src/Gateway/Errors/Secrecy.antt =====
-- What the filter of apps/api-gateway/src/errors/api-error.filter.ts lets through, and what it
-- hides.
use polyglot_ticketing_v.Base.{ℕ, ◌≤◌, ◌≡◌, refl, List, [], ◌∷◌, map, ltb, if◌then◌else◌, arith}
use polyglot_ticketing_v.Value.{Value}
use polyglot_ticketing_v.Gateway.Errors.{
  ErrorItem, Thrown, http, plain, error_response, item_value, api_error,
}
use polyglot_ticketing_v.Gateway.Errors.Filter.{Reply, get_http_status, fault_item, catch}
use polyglot_ticketing_v.Gateway.Errors.Contract.{get_structured_response-error_response}

abbrev pub fault_reply : ℕ → Reply
fault_reply status = record {
  status = status;
  body = error_response (item_value (fault_item status) ∷ []);
}

pub catch-plain : (v : Value) → catch (plain v) ≡ fault_reply 500
unfolding catch
catch-plain v = refl

pub catch-http_fault :
    (status : ℕ) (v : Value) → 500 ≤ status → catch (http status v) ≡ fault_reply status
unfolding catch
catch-http_fault status v h = ground arith

-- The reply to an exception with a server status, 500 or more, is a function of that status
-- alone: two such exceptions with the same status, an `HttpException` or any other value, get the
-- same reply.
pub catch_fault_hides :
    (e f : Thrown)
    → get_http_status e ≡ get_http_status f
    → 500 ≤ get_http_status e
    → catch e ≡ catch f
unfolding catch
catch_fault_hides (plain v) (plain w) same server = refl
catch_fault_hides (plain v) (http t w) same server = ground arith
catch_fault_hides (http s v) (plain w) same server = ground arith
catch_fault_hides (http s v) (http t w) same server = ground arith

-- The filter answers an `ApiError` with its status. Below 500 the body is the document of its
-- errors, in order; from 500 on it is the fixed document of that status. The error has at least
-- one item.
pub catch-api_error :
    (status : ℕ) (e : ErrorItem) (es : List ErrorItem)
    → catch (api_error status (e ∷ es)) ≡ (
        if ltb status 500
        then record { status = status; body = error_response (map item_value (e ∷ es)) }
        else fault_reply status)
unfolding catch api_error
catch-api_error status e es = ground (arith, get_structured_response-error_response e es)
