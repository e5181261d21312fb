-- ===== src/Identity/Mappers/EmailVerification.antt =====
-- apps/identity/src/identity/mappers/email-verification-error.mapper.ts
use polyglot_ticketing_v.Base.{String, Bool, ◌||◌, Option, none, if◌then◌else◌}
use polyglot_ticketing_v.Value.{Value, text_property}
use polyglot_ticketing_v.Contracts.ErrorCode
use polyglot_ticketing_v.Contracts.GrpcStatus
use polyglot_ticketing_v.Identity.Errors.{StructuredGrpcError, to_public_error_code, create}
use polyglot_ticketing_v.Identity.Mappers.{structured, first_some, body_code, is_code}

-- The code of the error comes before that of the body.
unfoldable pub get_external_error_code : Value → Option String
get_external_error_code error = first_some (text_property "code" error) (body_code error)

unfoldable pub has_verification_error_code : Value → Bool
unfolding get_external_error_code
has_verification_error_code error =
    let code = get_external_error_code error in
    is_code "INVALID_TOKEN" code || is_code "TOKEN_EXPIRED" code

unfoldable pub map_email_verification_error : Value → StructuredGrpcError
unfolding has_verification_error_code to_public_error_code
map_email_verification_error error =
    if has_verification_error_code error
    then structured GrpcStatus.unauthenticated (
        create ErrorCode.invalid_verification_token none
          "The email verification link is invalid or has expired.")
    else structured GrpcStatus.internal
        (create ErrorCode.internal_error none "Unable to verify email.")
