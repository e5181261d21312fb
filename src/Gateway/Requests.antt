-- ===== src/Gateway/Requests.antt =====
-- The bodies of requests: the global validation pipe of apps/api-gateway/src/app/app.bootstrap.ts.
-- NestJS runs it on a route's body after the guard and before the handler.
pub mod Dtos
pub mod Routes
pub mod Acceptance
pub mod Rejection
pub mod Asking
use polyglot_ticketing_v.Base.{true, List, [], ◌∷◌, Result, ok, err}
use polyglot_ticketing_v.Platform.ClassValidator.{
  Body, Rules, ValidatorOptions, ValidationError, ClassValidator,
}
use polyglot_ticketing_v.Gateway.Errors.{Thrown}
use polyglot_ticketing_v.Gateway.Errors.Validation.{create_validation_api_error}

-- `transform` makes the accepted body an instance of the DTO's class, which changes no property.
abbrev pub validation_options : ValidatorOptions
validation_options = record {
  whitelist = true;
  forbid_non_whitelisted = true;
  stop_at_first_error = true;
}

-- The pipe hands the accepted body on, or throws what `exceptionFactory` makes of the errors.
abbrev pub hand_on {ℓ} : {A : Type ℓ} → A → List ValidationError → Result Thrown A
hand_on dto [] = ok dto
hand_on dto (e ∷ es) = err (create_validation_api_error (e ∷ es))

unfoldable pub receive {ℓ} :
    {A : Type ℓ} → ClassValidator → Rules → (Body → A) → Body → Result Thrown A
receive validator rules read body =
    hand_on (read body) (validator.validate validation_options rules body)
