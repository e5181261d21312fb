-- ===== src/Tests/Errors.antt =====
-- Examples of the gateway's error documents.
use polyglot_ticketing_v.Base.{All, pos, ◌≡◌, refl, none, some, List, [], ◌∷◌, arith}
use polyglot_ticketing_v.Value.{Value, obj, arr, str, end, entry, of_list}
use polyglot_ticketing_v.Gateway.Errors.{
  ErrorItem, http, plain, error_response, item_value, throw_gateway_grpc_error,
  http_status_from_grpc_code,
}
use polyglot_ticketing_v.Gateway.Errors.Filter.{catch, get_http_status}
use polyglot_ticketing_v.Gateway.Errors.Validation.{ValidationError}
use polyglot_ticketing_v.Gateway.Errors.WellFormed.{WellFormed}
use polyglot_ticketing_v.Gateway.Errors.Contract.{catch-contract, gateway_writer}
use polyglot_ticketing_v.Gateway.Errors.Secrecy.{catch_fault_hides}
use polyglot_ticketing_v.Gateway.Errors.Backend.{
  catch-throw_gateway_grpc_error, grpc_error, document,
}
use polyglot_ticketing_v.Tests.Samples.Services.{json_of}

abbrev not_found_item : ErrorItem
not_found_item = record {
  message = "Ticket was not found.";
  code = "TICKET_NOT_FOUND";
  field = none;
}

abbrev messages : Value
messages = obj (entry "message" (arr (of_list (str "a" ∷ str "b" ∷ []))) end)

catch-contract_example :
    (errors : List Value) × ((catch (http 400 messages)).body ≡ error_response errors)
    × All WellFormed errors
catch-contract_example = catch-contract (http 400 messages)

catch_fault_hides_example :
    catch (plain (str "connection to db:5432 refused")) ≡ catch (http 500 (str "stack trace"))
unfolding get_http_status
catch_fault_hides_example =
    catch_fault_hides (plain (str "connection to db:5432 refused")) (http 500 (str "stack trace"))
      refl (ground arith)

catch-throw_gateway_grpc_error_example :
    catch (
      throw_gateway_grpc_error
        (json_of (document gateway_writer (not_found_item ∷ [])))
        (grpc_error (pos 5) "{...}")
        none)
    ≡ record { status = 404; body = error_response (item_value not_found_item ∷ []) }
unfolding http_status_from_grpc_code
catch-throw_gateway_grpc_error_example =
    catch-throw_gateway_grpc_error (json_of (document gateway_writer (not_found_item ∷ [])))
      gateway_writer (pos 5) not_found_item [] none refl

abbrev bad_email : ValidationError
bad_email = record {
  property = "email";
  constraints = some (("isEmail", "email must be an email") ∷ []);
}
