-- ===== src/Boundary/Expected.antt =====
-- The error items and the codes of Better Auth, written out apart from the mappers of
-- apps/identity/src/identity/mappers, and how the mappers come to them.
use polyglot_ticketing_v.Base.{
  ℤ, String, ◌||◌, ◌≡◌, refl, ap, ◌∙◌, Option, none, some, List, [], ◌∷◌, map, is_nat, str_eq,
  if◌then◌else◌,
}
use polyglot_ticketing_v.Value.{Value, property, text_property, number_property, and_then}
use polyglot_ticketing_v.Contracts.ErrorItem.{ErrorItem}
use polyglot_ticketing_v.Gateway.Errors.Filter.{Reply}
use polyglot_ticketing_v.Gateway.Errors.Secrecy.{fault_reply}
use polyglot_ticketing_v.Identity.Errors.{
  to_public_error_code, create_invalid_name_error, create_invalid_email_error,
  create_invalid_password_error, create_invalid_argument_error, create_email_already_exists_error,
  create_signup_internal_error, create_email_not_verified_error, create_invalid_credentials_error,
}
use polyglot_ticketing_v.Identity.Mappers.{
  first_some, body_code, is_code, map_protovalidate_violation,
}
use polyglot_ticketing_v.Identity.Mappers.Signup.{
  get_http_status_code, get_error_item, item_of_status,
}
use polyglot_ticketing_v.Identity.Mappers.Signin
use polyglot_ticketing_v.Identity.Mappers.EmailVerification
use polyglot_ticketing_v.Identity.Mappers.EmailVerification.{has_verification_error_code}
use polyglot_ticketing_v.Boundary.Replies.{client_reply}

abbrev pub item : String → String → Option String → ErrorItem
item code message field = record { message = message; code = code; field = field }

abbrev pub invalid_email : ErrorItem
invalid_email = item "INVALID_EMAIL" "Email must be valid." (some "email")

abbrev pub invalid_password : ErrorItem
invalid_password =
    item "INVALID_PASSWORD" "Password must be between 8 and 128 characters." (some "password")

abbrev pub invalid_data : ErrorItem
invalid_data = item "INVALID_ARGUMENT" "Signup data is invalid." none

-- The item of a violation, by its field.
abbrev pub violation_item : String → ErrorItem
violation_item path =
    if str_eq path "name"
    then item "INVALID_NAME" "Name is required." (some "name")
    else if str_eq path "email"
    then invalid_email
    else if str_eq path "password"
    then invalid_password
    else invalid_data

-- A text of an object that may be missing, and the first of two texts that is there.
abbrev pub text_in : String → Option Value → Option String
text_in name none = none
text_in name (some object) = text_property name object

abbrev pub either {ℓ} : {A : Type ℓ} → Option A → Option A → Option A
either (some a) b = some a
either none b = b

-- `error.statusCode`, or else `error.status`.
abbrev pub http_status : Value → Option ℤ
http_status e = either (number_property "statusCode" e) (number_property "status" e)

abbrev pub code_of_body : Value → Option String
code_of_body e = text_in "code" (property "body" e)

-- The item of a failed sign-up, by the code of Better Auth and the status of HTTP.
abbrev pub item_by_status : Option ℤ → ErrorItem
item_by_status none = item "INTERNAL_ERROR" "Unable to complete signup." none
item_by_status (some status) =
    if is_nat 409 status
    then item "ALREADY_EXISTS" "A user with this email already exists." (some "email")
    else invalid_data

abbrev pub sign_up_item : Option String → Option ℤ → ErrorItem
sign_up_item none status = item_by_status status
sign_up_item (some code) status =
    if str_eq code "INVALID_EMAIL"
    then invalid_email
    else if str_eq code "INVALID_PASSWORD"
        || str_eq code "PASSWORD_TOO_SHORT"
        || str_eq code "PASSWORD_TOO_LONG"
    then invalid_password
    else item_by_status status

-- The reply to a failed sign-in, by the code of Better Auth.
abbrev pub sign_in_refusal : Option String → Reply
sign_in_refusal none = fault_reply 500
sign_in_refusal (some code) =
    if str_eq code "EMAIL_NOT_VERIFIED"
    then client_reply 401
        (item "EMAIL_NOT_VERIFIED" "Verify your email before signing in." none ∷ [])
    else if str_eq code "INVALID_EMAIL_OR_PASSWORD"
    then client_reply 401 (item "INVALID_CREDENTIALS" "Email or password is incorrect." none ∷ [])
    else fault_reply 500

-- The reply to a link that is not taken.
abbrev pub link_refusal : Option String → Reply
link_refusal none = fault_reply 500
link_refusal (some code) =
    if str_eq code "INVALID_TOKEN" || str_eq code "TOKEN_EXPIRED"
    then client_reply 401 (
        item "INVALID_VERIFICATION_TOKEN" "The email verification link is invalid or has expired."
          none
        ∷ [])
    else fault_reply 500

pub violation_lem : (path : String) → map_protovalidate_violation path ≡ violation_item path
unfolding map_protovalidate_violation create_invalid_name_error create_invalid_email_error
    create_invalid_password_error create_invalid_argument_error to_public_error_code
violation_lem path = refl

pub violations_lem :
    (paths : List String) → map map_protovalidate_violation paths ≡ map violation_item paths
violations_lem [] = refl
violations_lem (path ∷ paths) = cc (violation_lem path, violations_lem paths)

first_some-either {ℓ} : {A : Type ℓ} (a b : Option A) → first_some a b ≡ either a b
first_some-either none b = refl
first_some-either (some x) b = refl

pub http_status_lem : (e : Value) → get_http_status_code e ≡ http_status e
unfolding get_http_status_code
http_status_lem e = first_some-either (number_property "statusCode" e) (number_property "status" e)

text_in-and_then : (o : Option Value) → and_then o (text_property "code") ≡ text_in "code" o
text_in-and_then none = refl
text_in-and_then (some body) = refl

pub body_code_lem : (e : Value) → body_code e ≡ code_of_body e
body_code_lem e = text_in-and_then (property "body" e)

item_of_status_lem : (status : Option ℤ) → item_of_status status ≡ item_by_status status
unfolding create_invalid_argument_error create_email_already_exists_error
    create_signup_internal_error to_public_error_code
item_of_status_lem none = refl
item_of_status_lem (some status) = refl

-- What `get_error_item` does with the code and the status.
abbrev mapped_item : Option String → Option ℤ → ErrorItem
mapped_item code status =
    if is_code "INVALID_EMAIL" code
    then create_invalid_email_error
    else if is_code "INVALID_PASSWORD" code
        || is_code "PASSWORD_TOO_SHORT" code
        || is_code "PASSWORD_TOO_LONG" code
    then create_invalid_password_error
    else item_of_status status

mapped_item_lem :
    (code : Option String) (status : Option ℤ) → mapped_item code status ≡ sign_up_item code status
unfolding create_invalid_email_error create_invalid_password_error to_public_error_code
mapped_item_lem none status = item_of_status_lem status
mapped_item_lem (some code) status = rw (item_of_status_lem status) refl

pub get_error_item_lem :
    (e : Value) → get_error_item e ≡ sign_up_item (code_of_body e) (http_status e)
unfolding get_error_item
get_error_item_lem e =
    ap (λ code. mapped_item code (get_http_status_code e)) (body_code_lem e)
    ∙ ap (mapped_item (code_of_body e)) (http_status_lem e)
    ∙ mapped_item_lem (code_of_body e) (http_status e)

-- At a sign-in the code of the body comes before that of the error, at a verification after it.
pub sign_in_code_lem :
    (e : Value)
    → Signin.get_external_error_code e ≡ either (code_of_body e) (text_property "code" e)
unfolding Signin.get_external_error_code
sign_in_code_lem e =
    ap (λ code. first_some code (text_property "code" e)) (body_code_lem e)
    ∙ first_some-either (code_of_body e) (text_property "code" e)

link_code_lem :
    (e : Value)
    → EmailVerification.get_external_error_code e ≡ either (text_property "code" e) (code_of_body e)
unfolding EmailVerification.get_external_error_code
link_code_lem e =
    ap (first_some (text_property "code" e)) (body_code_lem e)
    ∙ first_some-either (text_property "code" e) (code_of_body e)

abbrev mapped_refusal : Option String → Reply
mapped_refusal code =
    if is_code "EMAIL_NOT_VERIFIED" code
    then client_reply 401 (create_email_not_verified_error ∷ [])
    else if is_code "INVALID_EMAIL_OR_PASSWORD" code
    then client_reply 401 (create_invalid_credentials_error ∷ [])
    else fault_reply 500

pub sign_in_refusal_lem : (code : Option String) → mapped_refusal code ≡ sign_in_refusal code
unfolding create_email_not_verified_error create_invalid_credentials_error to_public_error_code
sign_in_refusal_lem none = refl
sign_in_refusal_lem (some code) = refl

abbrev mapped_link : ErrorItem → Option String → Reply
mapped_link invalid_link code =
    if is_code "INVALID_TOKEN" code || is_code "TOKEN_EXPIRED" code
    then client_reply 401 (invalid_link ∷ [])
    else fault_reply 500

abbrev pub invalid_link : ErrorItem
invalid_link =
    item "INVALID_VERIFICATION_TOKEN" "The email verification link is invalid or has expired." none

mapped_link_lem : (code : Option String) → mapped_link invalid_link code ≡ link_refusal code
mapped_link_lem none = refl
mapped_link_lem (some code) = refl

pub link_refusal_lem :
    (e : Value)
    → (if has_verification_error_code e
        then client_reply 401 (invalid_link ∷ [])
        else fault_reply 500)
      ≡ link_refusal (either (text_property "code" e) (code_of_body e))
unfolding has_verification_error_code
link_refusal_lem e =
    ap (mapped_link invalid_link) (link_code_lem e)
    ∙ mapped_link_lem (either (text_property "code" e) (code_of_body e))
