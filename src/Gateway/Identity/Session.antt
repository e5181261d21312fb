-- ===== src/Gateway/Identity/Session.antt =====
-- The guard of the routes that need a session: `SessionAuthGuard` and the `CurrentUser` decorator,
-- apps/api-gateway/src/identity/guards and decorators. NestJS runs the guard before the handler.
pub mod Laws
use polyglot_ticketing_v.Base.{String, Option, none, some, Result, ok, err, ◌>>=◌}
use polyglot_ticketing_v.Value.{Value}
use polyglot_ticketing_v.Value.Json.{Json}
use polyglot_ticketing_v.Platform.Metadata.{MetadataApi}
use polyglot_ticketing_v.Gateway.Errors.{Thrown, http}
use polyglot_ticketing_v.Gateway.Identity.Headers.{RequestHeaders}
use polyglot_ticketing_v.Gateway.Identity.AuthService.{
  AuthenticatedUser, IdentityGrpcService, current_user,
}

pub record AuthenticatedRequest : Type 0 where
  pub headers : RequestHeaders
  pub user : Option AuthenticatedUser

-- The response body of `new UnauthorizedException()` is the framework's.
module _ (grpc : MetadataApi) (json : Json) (unauthorized : Value)
    (identity : IdentityGrpcService grpc) where
  -- `canActivate`, which stores the session's user in the request.
  unfoldable pub can_activate : AuthenticatedRequest → Result Thrown AuthenticatedRequest
  can_activate request = do
    user ← current_user grpc json identity request.headers
    ok (record request { user = some user })

  unfoldable pub current_user_of : AuthenticatedRequest → Result Thrown AuthenticatedUser
  current_user_of request = elim request.user [
    | none ↦ err (http 401 unauthorized)
    | some user ↦ ok user
  ]

  -- A route with `@UseGuards(SessionAuthGuard)` and a `@CurrentUser()` parameter.
  unfoldable pub with_session {ℓ} :
      {A : Type ℓ} → RequestHeaders → (AuthenticatedUser → Result Thrown A) → Result Thrown A
  unfolding can_activate current_user_of
  with_session headers handler = do
    request ← can_activate (record { headers = headers; user = none })
    user ← current_user_of request
    handler user
