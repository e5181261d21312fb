-- ===== src/Gateway/Identity/AuthController/SignOut.antt =====
-- When the session cookie of the browser is cleared.
use polyglot_ticketing_v.Base.{
  pos, ◌≡◌, ◌↔◌, refl, Bool, Option, none, some, Result, ok, err, arith,
}
use polyglot_ticketing_v.Value.{Value}
use polyglot_ticketing_v.Value.Json.{Json}
use polyglot_ticketing_v.Platform.Metadata.{MetadataApi}
use polyglot_ticketing_v.Platform.Dates.{DateApi}
use polyglot_ticketing_v.Gateway.Errors.{Thrown}
use polyglot_ticketing_v.Gateway.Identity.Headers.{RequestHeaders}
use polyglot_ticketing_v.Gateway.Identity.Metadata.{create_session_request_metadata}
use polyglot_ticketing_v.Gateway.Identity.AuthService.{IdentityGrpcService, guarded}
use polyglot_ticketing_v.Gateway.Identity.AuthController.{
  Cookie, session_cookie, finish_sign_out, post_sign_out,
}

-- The cookie that replaces the session cookie of the browser by one that has expired.
abbrev pub cleared : Bool → Cookie
cleared production = session_cookie production "" (pos 0)

module _ (grpc : MetadataApi) (json : Json) (dates : DateApi) (identity : IdentityGrpcService grpc)
    (production : Bool) where
  abbrev signed_out : RequestHeaders → Option Cookie × Result Thrown (Unit {0})
  signed_out headers = post_sign_out grpc json dates identity production headers

  -- Signing out clears the session cookie exactly where Identity has ended the session that the
  -- request carries; and the browser keeps its cookie exactly where the route fails.
  pub post_sign_out-clears_iff :
      (headers : RequestHeaders) (metadata : grpc.Metadata)
      → create_session_request_metadata grpc headers ≡ ok metadata
      → (((signed_out headers).0 ≡ some (cleared production))
          ↔ (identity.sign_out metadata ≡ ok tt))
        × (((signed_out headers).0 ≡ none) ↔ ((e : Thrown) × ((signed_out headers).1 ≡ err e)))
  unfolding post_sign_out
  post_sign_out-clears_iff headers metadata created =
      rw created (by_outcome (identity.sign_out metadata))
    where
      outcome : Result Value (Unit {0}) → Option Cookie × Result Thrown (Unit {0})
      outcome r =
          finish_sign_out grpc json dates identity production (guarded grpc json identity none r)

      by_outcome :
          (r : Result Value (Unit {0}))
          → (((outcome r).0 ≡ some (cleared production)) ↔ (r ≡ ok tt))
            × (((outcome r).0 ≡ none) ↔ ((e : Thrown) × ((outcome r).1 ≡ err e)))
      by_outcome (ok done) =
          ((λ h. refl, λ h. refl), (λ h. absurd (ground arith), λ h. absurd (ground (arith, h.1))))
      by_outcome (err e) =
          ((λ h. absurd (ground arith), λ h. absurd (ground arith)), (λ h. (_, refl), λ h. refl))
