-- ===== src/Identity/Mappers.antt =====
-- From an error of Better Auth to a structured gRPC error: apps/identity/src/identity/mappers.
pub mod Signup
pub mod Signin
pub mod EmailVerification
pub mod Tables
use polyglot_ticketing_v.Base.{
  ℕ, String, Bool, false, Option, none, some, List, [], ◌∷◌, str_eq, if◌then◌else◌,
}
use polyglot_ticketing_v.Value.{Value, property, text_property, and_then}
use polyglot_ticketing_v.Contracts.ErrorItem.{ErrorItem}
use polyglot_ticketing_v.Contracts.GrpcStatus
use polyglot_ticketing_v.Identity.Errors.{
  StructuredGrpcError, create_invalid_name_error, create_invalid_email_error,
  create_invalid_password_error, create_invalid_argument_error, create_sign_out_internal_error,
}

abbrev pub structured : ℕ → ErrorItem → StructuredGrpcError
structured code item = record { code = code; errors = item ∷ [] }

-- `a ?? b`, the second only where the first is missing.
abbrev pub first_some {ℓ} : {A : Type ℓ} → Option A → Option A → Option A
first_some none b = b
first_some (some a) b = some a

-- `error.body.code`, where both are there and the code is a text.
abbrev pub body_code : Value → Option String
body_code error = and_then (property "body" error) (text_property "code")

-- `code === text` on an optional code.
abbrev pub is_code : String → Option String → Bool
is_code text none = false
is_code text (some code) = str_eq code text

unfoldable pub map_better_auth_sign_out_error : StructuredGrpcError
map_better_auth_sign_out_error = structured GrpcStatus.internal create_sign_out_internal_error

-- `switch (pathToString(violation.field))`, over the path.
unfoldable pub map_protovalidate_violation : String → ErrorItem
map_protovalidate_violation path =
    if str_eq path "name"
    then create_invalid_name_error
    else if str_eq path "email"
    then create_invalid_email_error
    else if str_eq path "password"
    then create_invalid_password_error
    else create_invalid_argument_error
