-- ===== src/Contracts/ErrorCode.antt =====
-- The public error codes, protogen/ts/common/v1/error_pb.ts.
use polyglot_ticketing_v.Base.{ℤ, String, Option, none, some}

pub data ErrorCode : Type 0 where
  unspecified invalid_argument invalid_name invalid_email invalid_password : ErrorCode
  invalid_title invalid_price invalid_credentials email_not_verified : ErrorCode
  invalid_verification_token already_exists unauthenticated forbidden not_found : ErrorCode
  rate_limited service_unavailable internal_error : ErrorCode
  unrecognized : ℤ → ErrorCode

-- `ErrorCode[errorCode]`, the reverse mapping of the enumeration.
unfoldable pub error_code_name : ErrorCode → Option String
error_code_name unspecified = some "UNSPECIFIED"
error_code_name invalid_argument = some "INVALID_ARGUMENT"
error_code_name invalid_name = some "INVALID_NAME"
error_code_name invalid_email = some "INVALID_EMAIL"
error_code_name invalid_password = some "INVALID_PASSWORD"
error_code_name invalid_title = some "INVALID_TITLE"
error_code_name invalid_price = some "INVALID_PRICE"
error_code_name invalid_credentials = some "INVALID_CREDENTIALS"
error_code_name email_not_verified = some "EMAIL_NOT_VERIFIED"
error_code_name invalid_verification_token = some "INVALID_VERIFICATION_TOKEN"
error_code_name already_exists = some "ALREADY_EXISTS"
error_code_name unauthenticated = some "UNAUTHENTICATED"
error_code_name forbidden = some "FORBIDDEN"
error_code_name not_found = some "NOT_FOUND"
error_code_name rate_limited = some "RATE_LIMITED"
error_code_name service_unavailable = some "SERVICE_UNAVAILABLE"
error_code_name internal_error = some "INTERNAL_ERROR"
error_code_name (unrecognized n) = none
