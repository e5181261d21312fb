-- ===== src/Identity/Mappers/Signin.antt =====
-- apps/identity/src/identity/mappers/better-auth-signin-error.mapper.ts
use polyglot_ticketing_v.Base.{String, Option, if◌then◌else◌}
use polyglot_ticketing_v.Value.{Value, text_property}
use polyglot_ticketing_v.Contracts.GrpcStatus
use polyglot_ticketing_v.Identity.Errors.{
  StructuredGrpcError, create_email_not_verified_error, create_invalid_credentials_error,
  create_signin_internal_error,
}
use polyglot_ticketing_v.Identity.Mappers.{structured, first_some, body_code, is_code}

-- The code of the body comes before that of the error.
unfoldable pub get_external_error_code : Value → Option String
get_external_error_code error = first_some (body_code error) (text_property "code" error)

unfoldable pub map_better_auth_sign_in_error : Value → StructuredGrpcError
unfolding get_external_error_code
map_better_auth_sign_in_error error =
    let error_code = get_external_error_code error in
    if is_code "EMAIL_NOT_VERIFIED" error_code
    then structured GrpcStatus.unauthenticated create_email_not_verified_error
    else if is_code "INVALID_EMAIL_OR_PASSWORD" error_code
    then structured GrpcStatus.unauthenticated create_invalid_credentials_error
    else structured GrpcStatus.internal create_signin_internal_error
