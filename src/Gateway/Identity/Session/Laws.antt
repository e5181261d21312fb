-- ===== src/Gateway/Identity/Session/Laws.antt =====
-- What the session guard promises to a route.
use polyglot_ticketing_v.Base.{◌≡◌, refl, sym, ◌∙◌, some, Result, ok, err, ◌>>=◌}
use polyglot_ticketing_v.Value.{Value}
use polyglot_ticketing_v.Value.Json.{Json}
use polyglot_ticketing_v.Platform.Metadata.{MetadataApi}
use polyglot_ticketing_v.Gateway.Errors.{Thrown}
use polyglot_ticketing_v.Gateway.Identity.Headers.{RequestHeaders}
use polyglot_ticketing_v.Gateway.Identity.AuthService.{
  AuthenticatedUser, IdentityGrpcService, current_user,
}
use polyglot_ticketing_v.Gateway.Identity.Session.{current_user_of, with_session}

module _ {ℓ} {A : Type ℓ} (grpc : MetadataApi) (json : Json) (unauthorized : Value)
    (identity : IdentityGrpcService grpc) (headers : RequestHeaders)
    (handler : AuthenticatedUser → Result Thrown A) where
  -- The decorator's own 401 is never reached behind the guard.
  pub with_session_lem :
      with_session grpc json unauthorized identity headers handler
      ≡ (current_user grpc json identity headers >>= handler)
  unfolding with_session
  with_session_lem = after (current_user grpc json identity headers)
    where
      after :
          (r : Result Thrown AuthenticatedUser)
          → ((r >>= λ user. ok (record { headers = headers; user = some user })) >>= λ request.
              current_user_of grpc json unauthorized identity request >>= handler)
            ≡ (r >>= handler)
      after (ok user) = refl
      after (err e) = refl

  pub with_session-err :
      (e : Thrown)
      → current_user grpc json identity headers ≡ err e
      → with_session grpc json unauthorized identity headers handler ≡ err e
  with_session-err e failed = rw (with_session_lem, failed)

  pub with_session-ok :
      (user : AuthenticatedUser)
      → current_user grpc json identity headers ≡ ok user
      → with_session grpc json unauthorized identity headers handler ≡ handler user
  with_session-ok user found = rw (with_session_lem, found)

module _ {ℓ} {A : Type ℓ} (grpc : MetadataApi) (json : Json) (unauthorized : Value)
    (identity : IdentityGrpcService grpc) (headers : RequestHeaders)
    (f g : AuthenticatedUser → Result Thrown A) (user : AuthenticatedUser)
    (found : current_user grpc json identity headers ≡ ok user) where
  -- Handlers that agree on the session's user agree behind the guard.
  pub with_session-agree :
      f user ≡ g user
      → with_session grpc json unauthorized identity headers f
        ≡ with_session grpc json unauthorized identity headers g
  with_session-agree h =
      with_session-ok grpc json unauthorized identity headers f user found
      ∙ h
      ∙ sym (with_session-ok grpc json unauthorized identity headers g user found)
