-- ===== src/Gateway/Errors/Validation.antt =====
-- Rejected request bodies, apps/api-gateway/src/errors/validation-error.ts. The validation pipe
-- and its `ValidationError` are third-party; an error is taken as the service reads it.
pub mod Replies
use polyglot_ticketing_v.Base.{
  ℕ, String, Bool, Option, none, some, List, [], ◌∷◌, map, lookup, default_to, str_eq,
  if◌then◌else◌,
}
use polyglot_ticketing_v.Base.Text.{is_some}
use polyglot_ticketing_v.Contracts.ErrorCode
pub use polyglot_ticketing_v.Platform.ClassValidator.{ValidationError}
use polyglot_ticketing_v.Gateway.Errors.{ErrorItem, Thrown, api_error, to_public_error_code}

abbrev pub first_message : List (String × String) → Option String
first_message [] = none
first_message ((_, message) ∷ _) = some message

unfoldable pub get_validation_message : ValidationError → String
get_validation_message e =
    default_to "Request data is invalid." (first_message (default_to [] e.constraints))

unfoldable pub get_validation_code : String → String
get_validation_code field =
    if str_eq field "name"
    then to_public_error_code ErrorCode.invalid_name
    else if str_eq field "email"
    then to_public_error_code ErrorCode.invalid_email
    else if str_eq field "password"
    then to_public_error_code ErrorCode.invalid_password
    else if str_eq field "title"
    then to_public_error_code ErrorCode.invalid_title
    else if str_eq field "price"
    then to_public_error_code ErrorCode.invalid_price
    else to_public_error_code ErrorCode.invalid_argument

unfoldable pub is_unexpected_field : ValidationError → Bool
is_unexpected_field e = is_some (lookup "whitelistValidation" (default_to [] e.constraints))

unfoldable pub to_error_item : ValidationError → ErrorItem
unfolding get_validation_message get_validation_code is_unexpected_field
to_error_item e = record {
  message = if is_unexpected_field e then "Unexpected field." else get_validation_message e;
  code =
      if is_unexpected_field e
      then to_public_error_code ErrorCode.invalid_argument
      else get_validation_code e.property;
  field = some e.property;
}

unfoldable pub create_validation_api_error : List ValidationError → Thrown
unfolding api_error to_error_item
create_validation_api_error errors = api_error 400 (map to_error_item errors)
