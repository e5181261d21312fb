-- ===== src/Tests/Answers.antt =====
-- Replies to sign-ups, sign-ins and links of mails, through both services.
use polyglot_ticketing_v.Base.{
  pos, String, ◌≡◌, refl, ap, none, some, List, [], ok, err, map_err, err_injective,
}
use polyglot_ticketing_v.Value.{Value, obj, end, entry, str, num}
use polyglot_ticketing_v.Platform.Metadata.{MetadataValue}
use polyglot_ticketing_v.Gateway.Errors.Filter.{catch}
use polyglot_ticketing_v.Gateway.Identity.Headers.{RequestHeaders, absent}
use polyglot_ticketing_v.Gateway.Identity.Metadata.{create_auth_request_metadata}
use polyglot_ticketing_v.Gateway.Identity.AuthService.{sign_up, sign_in, verify_email}
use polyglot_ticketing_v.Identity.Errors.{
  details, create_email_already_exists_error, create_email_not_verified_error,
}
use polyglot_ticketing_v.Identity.Mappers.{structured}
use polyglot_ticketing_v.Identity.Mappers.Signup.{map_better_auth_error}
use polyglot_ticketing_v.Identity.Mappers.Signin.{map_better_auth_sign_in_error}
use polyglot_ticketing_v.Identity.Mappers.EmailVerification.{map_email_verification_error}
use polyglot_ticketing_v.Identity.Service
use polyglot_ticketing_v.Identity.Service.{
  IdentityAuthContext, SignUpRequest, SignInRequest, valid, invalid, try_sign_in,
}
use polyglot_ticketing_v.Boundary.{connect}
use polyglot_ticketing_v.Boundary.SignUp.{sign_up_answer, sign_up_answers}
use polyglot_ticketing_v.Boundary.SignIn.{sign_in_answer, sign_in_answers}
use polyglot_ticketing_v.Boundary.Expected.{invalid_link}
use polyglot_ticketing_v.Boundary.Verification.{verification_answer, verify_email_answers}
use polyglot_ticketing_v.Tests.Samples.{metadata, web_headers}
use polyglot_ticketing_v.Tests.Samples.Services.{json_of}

-- Failures of Better Auth.
abbrev conflict : Value
conflict = obj (entry "status" (num (pos 409)) end)

abbrev unverified : Value
unverified = obj (entry "code" (str "EMAIL_NOT_VERIFIED") end)

abbrev expired : Value
expired = obj (entry "code" (str "TOKEN_EXPIRED") end)

-- Better Auth with one user, whose email is not verified.
abbrev context : IdentityAuthContext metadata web_headers
context = record {
  validate_sign_up = λ request. valid;
  validate_sign_in = λ request. valid;
  sign_up_email = λ request. err conflict;
  sign_in_email = λ request headers. err unverified;
  sign_out = λ headers. ok tt;
  get_session = λ headers. ok none;
  verify_email = λ token. err expired;
  get_session_expiry = λ token user_id. ok none;
}

abbrev ada_signs_up : SignUpRequest
ada_signs_up = record { name = "Ada"; email = "ada@example.com"; password = "analytical" }

abbrev ada_signs_in : SignInRequest
ada_signs_in = record { email = "ada@example.com"; password = "analytical" }

sign_up_answers_example :
    map_err catch (
      sign_up metadata
        (json_of (details (structured 6 create_email_already_exists_error)))
        (connect metadata web_headers
          (json_of (details (structured 6 create_email_already_exists_error)))
          context)
        ada_signs_up)
    ≡ sign_up_answer valid (err conflict)
unfolding Service.sign_up map_better_auth_error
sign_up_answers_example =
    sign_up_answers metadata web_headers
      (json_of (details (structured 6 create_email_already_exists_error))) context ada_signs_up
      λ e failed. ap (λ d. some (details d)) (err_injective failed)

abbrev no_headers : RequestHeaders
no_headers name = absent

abbrev no_metadata : String → List MetadataValue
no_metadata key = []

sign_in_answers_example :
    map_err catch (
      sign_in metadata
        (json_of (details (structured 16 create_email_not_verified_error)))
        (connect metadata web_headers
          (json_of (details (structured 16 create_email_not_verified_error)))
          context)
        ada_signs_in
        no_headers)
    ≡ sign_in_answer valid (try_sign_in metadata web_headers context ada_signs_in no_metadata)
unfolding Service.sign_in map_better_auth_sign_in_error create_auth_request_metadata try_sign_in
sign_in_answers_example =
    sign_in_answers metadata web_headers
      (json_of (details (structured 16 create_email_not_verified_error))) context no_headers
      no_metadata ada_signs_in refl λ e failed. ap (λ d. some (details d)) (err_injective failed)

verify_email_answers_example :
    map_err catch (
      verify_email metadata
        (json_of (details (structured 16 invalid_link)))
        (connect metadata web_headers (json_of (details (structured 16 invalid_link))) context)
        "abc")
    ≡ verification_answer (err expired)
unfolding Service.verify_email map_email_verification_error
verify_email_answers_example =
    verify_email_answers metadata web_headers (json_of (details (structured 16 invalid_link)))
      context "abc" λ e failed. ap (λ d. some (details d)) (err_injective failed)
