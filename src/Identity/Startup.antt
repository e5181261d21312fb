-- ===== src/Identity/Startup.antt =====
-- The settings of the identity service: apps/identity/src/app/app.bootstrap.ts. The directories of
-- the contracts are relative to the working directory.
use polyglot_ticketing_v.Base.{String, List, [], ◌∷◌, default_to}
use polyglot_ticketing_v.Base.Text.{append}
use polyglot_ticketing_v.Platform.Numbers.{JsNumber, NumberApi}
use polyglot_ticketing_v.Identity.Auth.{Environment}

pub record GrpcServer : Type 0 where
  pub proto_package : String
  pub proto_path : String
  pub include_dirs : List String
  pub url : String

-- `Number(process.env.GRPC_PORT ?? 50051)`; a number is its own number, as its text is.
abbrev pub grpc_port : NumberApi → Environment → JsNumber
grpc_port numbers env = numbers.number (default_to "50051" (env "GRPC_PORT"))

-- `shown` is the text of a number.
unfoldable pub create_identity_microservice :
    NumberApi → (JsNumber → String) → Environment → GrpcServer
create_identity_microservice numbers shown env = record {
  proto_package = "identity.v1";
  proto_path = "proto/identity/v1/identity.proto";
  include_dirs = "proto" ∷ "proto-deps" ∷ [];
  url = append "0.0.0.0:" (shown (grpc_port numbers env));
}
