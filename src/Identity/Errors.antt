-- ===== src/Identity/Errors.antt =====
-- Structured gRPC errors: apps/identity/src/errors/error-code.ts and grpc-error.ts, and the error
-- items of apps/identity/src/identity/mappers/*-errors.ts.
use polyglot_ticketing_v.Base.{ℕ, String, Option, none, some, List, map}
use polyglot_ticketing_v.Value.{Value, Fields, str, arr, obj, end, entry, of_list}
use polyglot_ticketing_v.Contracts.ErrorItem.{ErrorItem}
use polyglot_ticketing_v.Contracts.ErrorCode.{ErrorCode, error_code_name}

abbrev named : ErrorCode → Option String → String
named ErrorCode.unspecified name = "INTERNAL_ERROR"
named code none = "INTERNAL_ERROR"
named code (some name) = name

unfoldable pub to_public_error_code : ErrorCode → String
unfolding error_code_name
to_public_error_code code = named code (error_code_name code)

abbrev pub field_then : Option String → Fields → Fields
field_then none rest = rest
field_then (some f) rest = entry "field" (str f) rest

-- An error item as the literals of the mappers order it.
unfoldable pub item_value : ErrorItem → Value
item_value e =
    obj (entry "code" (str e.code) (field_then e.field (entry "message" (str e.message) end)))

-- `new StructuredGrpcError(code, errors)`; its details are the JSON of `{ errors }`.
pub record StructuredGrpcError : Type 0 where
  pub code : ℕ
  pub errors : List ErrorItem

unfoldable pub details : StructuredGrpcError → Value
details e = obj (entry "errors" (arr (of_list (map item_value e.errors))) end)

abbrev pub create : ErrorCode → Option String → String → ErrorItem
create code field message = record {
  message = message;
  code = to_public_error_code code;
  field = field;
}

unfoldable pub create_email_not_verified_error : ErrorItem
unfolding to_public_error_code
create_email_not_verified_error =
    create ErrorCode.email_not_verified none "Verify your email before signing in."

unfoldable pub create_invalid_credentials_error : ErrorItem
unfolding to_public_error_code
create_invalid_credentials_error =
    create ErrorCode.invalid_credentials none "Email or password is incorrect."

unfoldable pub create_signin_internal_error : ErrorItem
unfolding to_public_error_code
create_signin_internal_error = create ErrorCode.internal_error none "Unable to complete signin."

unfoldable pub create_signin_validation_internal_error : ErrorItem
unfolding to_public_error_code
create_signin_validation_internal_error =
    create ErrorCode.internal_error none "Unable to validate signin data."

unfoldable pub create_invalid_name_error : ErrorItem
unfolding to_public_error_code
create_invalid_name_error = create ErrorCode.invalid_name (some "name") "Name is required."

unfoldable pub create_invalid_email_error : ErrorItem
unfolding to_public_error_code
create_invalid_email_error = create ErrorCode.invalid_email (some "email") "Email must be valid."

unfoldable pub create_invalid_password_error : ErrorItem
unfolding to_public_error_code
create_invalid_password_error =
    create ErrorCode.invalid_password (some "password")
      "Password must be between 8 and 128 characters."

unfoldable pub create_invalid_argument_error : ErrorItem
unfolding to_public_error_code
create_invalid_argument_error = create ErrorCode.invalid_argument none "Signup data is invalid."

unfoldable pub create_email_already_exists_error : ErrorItem
unfolding to_public_error_code
create_email_already_exists_error =
    create ErrorCode.already_exists (some "email") "A user with this email already exists."

unfoldable pub create_signup_validation_internal_error : ErrorItem
unfolding to_public_error_code
create_signup_validation_internal_error =
    create ErrorCode.internal_error none "Unable to validate signup data."

unfoldable pub create_signup_internal_error : ErrorItem
unfolding to_public_error_code
create_signup_internal_error = create ErrorCode.internal_error none "Unable to complete signup."

unfoldable pub create_sign_out_internal_error : ErrorItem
unfolding to_public_error_code
create_sign_out_internal_error = create ErrorCode.internal_error none "Unable to complete signout."

unfoldable pub create_current_user_unauthenticated_error : ErrorItem
unfolding to_public_error_code
create_current_user_unauthenticated_error =
    create ErrorCode.unauthenticated none "Authentication is required."

unfoldable pub create_current_user_internal_error : ErrorItem
unfolding to_public_error_code
create_current_user_internal_error =
    create ErrorCode.internal_error none "Unable to get the current user."
