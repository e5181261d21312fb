-- ===== src/Gateway/Errors/Validation/Replies.antt =====
-- The reply to a rejected request body.
use polyglot_ticketing_v.Base.{
  String, ◌≡◌, refl, ◌≢◌, eq_iff, lookup, none, some, List, ◌∷◌, map, arith,
}
use polyglot_ticketing_v.Gateway.Errors.{
  error_response, item_value, api_error, to_public_error_code,
}
use polyglot_ticketing_v.Gateway.Errors.Filter.{catch}
use polyglot_ticketing_v.Gateway.Errors.Secrecy.{catch-api_error}
use polyglot_ticketing_v.Gateway.Errors.Validation.{
  ValidationError, to_error_item, create_validation_api_error,
}

create_validation_api_error_lem :
    (es : List ValidationError)
    → create_validation_api_error es ≡ api_error 400 (map to_error_item es)
unfolding create_validation_api_error
create_validation_api_error_lem es = refl

-- A rejected request body is answered with status 400 and one error for each rejected property, in
-- the order of the validation errors, of which there is at least one.
pub catch-create_validation_api_error :
    (e : ValidationError) (es : List ValidationError)
    → catch (create_validation_api_error (e ∷ es))
      ≡ record { status = 400; body = error_response (map item_value (map to_error_item (e ∷ es))) }
catch-create_validation_api_error e es =
    rw (create_validation_api_error_lem (e ∷ es))
      (catch-api_error 400 (to_error_item e) (map to_error_item es))

-- The item of a rejected property names the property, and its text is one of three: the message of
-- the first failed check where the property is expected and a check is named, a fixed text where no
-- check is named, and a fixed text for a property that is not expected.
pub to_error_item_texts :
    (e : ValidationError)
    → ((to_error_item e).field ≡ some e.property)
      × ((name message : String) (rest : List (String × String))
          → e.constraints ≡ some ((name, message) ∷ rest)
          → name ≢ "whitelistValidation"
          → lookup "whitelistValidation" rest ≡ none
          → (to_error_item e).message ≡ message)
      × (e.constraints ≡ none → (to_error_item e).message ≡ "Request data is invalid.")
      × ((rules : List (String × String)) (m : String)
          → e.constraints ≡ some rules
          → lookup "whitelistValidation" rules ≡ some m
          → ((to_error_item e).message ≡ "Unexpected field.")
            × ((to_error_item e).code ≡ "INVALID_ARGUMENT"))
unfolding to_error_item to_public_error_code
to_error_item_texts e = (
  refl,
  λ name message rest c ne missing. ground (arith, eq_iff name "whitelistValidation"),
  λ c. ground arith,
  λ rules m c listed. (ground arith, ground arith),
)
