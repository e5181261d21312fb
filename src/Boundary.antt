-- ===== src/Boundary.antt =====
-- The gateway and the identity service together: a call of apps/api-gateway/src/identity over gRPC
-- reaches apps/identity/src/identity, and its error comes back as the gateway's reply.
pub mod SessionReplies
pub mod Wiring
pub mod AuthHeaders
pub mod SessionHeader
pub mod SignInCookie
pub mod SignUp
pub mod SignIn
pub mod Verification
pub mod Replies
pub mod Expected
pub mod Reservations
use polyglot_ticketing_v.Base.{
  ℕ, pos, String, ◌≡◌, refl, Option, none, some, List, [], ◌∷◌, map, Result, ok, err, map_err, Bool,
  true, arith,
}
use polyglot_ticketing_v.Value.{Value}
use polyglot_ticketing_v.Value.Json.{Json}
use polyglot_ticketing_v.Contracts.ErrorItem.{ErrorItem}
use polyglot_ticketing_v.Platform.Metadata.{MetadataApi}
use polyglot_ticketing_v.Platform.WebHeaders.{HeadersApi}
use polyglot_ticketing_v.Gateway.Errors
use polyglot_ticketing_v.Gateway.Errors.Contract.{ItemWriter}
use polyglot_ticketing_v.Gateway.Errors.{as_error_item}
use polyglot_ticketing_v.Gateway.Errors.Backend.{grpc_error}
use polyglot_ticketing_v.Gateway.Identity.AuthService.{IdentityGrpcService}
use polyglot_ticketing_v.Identity.Errors.{StructuredGrpcError, details, item_value}
use polyglot_ticketing_v.Identity.Service
use polyglot_ticketing_v.Identity.Service.{IdentityAuthContext}

pub item_value-accepted : (e : ErrorItem) → Errors.is_error_item (item_value e) ≡ true
unfolding Errors.is_error_item item_value
item_value-accepted e = ground arith

pub item_value-read : (e : ErrorItem) → as_error_item (item_value e) ≡ e
unfolding as_error_item item_value
item_value-read e = ground arith

-- Identity writes its error items in another order than the gateway does.
abbrev pub identity_writer : ItemWriter
identity_writer = record {
  write = item_value;
  accepted = item_value-accepted;
  read = item_value-read;
}

-- The error that the gateway's client throws for a `StructuredGrpcError`.
abbrev pub to_wire : Json → StructuredGrpcError → Value
to_wire json e = grpc_error (pos e.code) (json.stringify (details e))

module _ (grpc : MetadataApi) (web : HeadersApi) (json : Json)
    (context : IdentityAuthContext grpc web) where
  -- The gateway's client of the identity service, with that service behind it.
  abbrev pub connect : IdentityGrpcService grpc
  connect = record {
    sign_up = λ request. map_err (to_wire json) (Service.sign_up grpc web context request);
    sign_in = λ request m. map_err (to_wire json) (Service.sign_in grpc web context request m);
    sign_out = λ m. map_err (to_wire json) (Service.sign_out grpc web context m);
    current_user = λ m. map_err (to_wire json) (Service.current_user grpc web context m);
    verify_email = λ token. map_err (to_wire json) (Service.verify_email grpc web context token);
  }
