-- ===== src/Identity/Mappers/Signup.antt =====
-- apps/identity/src/identity/mappers/better-auth-error.mapper.ts
use polyglot_ticketing_v.Base.{
  ℕ, ℤ, ◌&&◌, ◌||◌, Option, none, some, is_nat, at_least, below, if◌then◌else◌,
}
use polyglot_ticketing_v.Value.{Value, number_property}
use polyglot_ticketing_v.Contracts.ErrorItem.{ErrorItem}
use polyglot_ticketing_v.Contracts.GrpcStatus
use polyglot_ticketing_v.Identity.Errors.{
  StructuredGrpcError, create_invalid_email_error, create_invalid_password_error,
  create_invalid_argument_error, create_email_already_exists_error, create_signup_internal_error,
}
use polyglot_ticketing_v.Identity.Mappers.{structured, first_some, body_code, is_code}

-- `statusCode` comes before `status`.
unfoldable pub get_http_status_code : Value → Option ℤ
get_http_status_code error =
    first_some (number_property "statusCode" error) (number_property "status" error)

abbrev pub status_code_of : Option ℤ → ℕ
status_code_of none = GrpcStatus.internal
status_code_of (some status_code) =
    if is_nat 409 status_code
    then GrpcStatus.already_exists
    else if at_least 400 status_code && below 500 status_code
    then GrpcStatus.invalid_argument
    else GrpcStatus.internal

unfoldable pub get_grpc_status_code : Value → ℕ
unfolding get_http_status_code
get_grpc_status_code error = status_code_of (get_http_status_code error)

abbrev pub item_of_status : Option ℤ → ErrorItem
item_of_status none = create_signup_internal_error
item_of_status (some status_code) =
    if is_nat 409 status_code
    then create_email_already_exists_error
    else create_invalid_argument_error

unfoldable pub get_error_item : Value → ErrorItem
unfolding get_http_status_code
get_error_item error =
    let error_code = body_code error in
    if is_code "INVALID_EMAIL" error_code
    then create_invalid_email_error
    else if is_code "INVALID_PASSWORD" error_code
        || is_code "PASSWORD_TOO_SHORT" error_code
        || is_code "PASSWORD_TOO_LONG" error_code
    then create_invalid_password_error
    else item_of_status (get_http_status_code error)

unfoldable pub map_better_auth_error : Value → StructuredGrpcError
unfolding get_grpc_status_code get_error_item
map_better_auth_error error = structured (get_grpc_status_code error) (get_error_item error)
