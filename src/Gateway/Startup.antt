-- ===== src/Gateway/Startup.antt =====
-- The settings of the gateway: apps/api-gateway/src/app/app.bootstrap.ts, the port of main.ts, and
-- the gRPC clients of identity.module.ts, orders.module.ts, payments.module.ts and
-- tickets.module.ts. The directories of the contracts are relative to the working directory.
use polyglot_ticketing_v.Base.{String, Bool, true, false, List, [], ◌∷◌, default_to}
use polyglot_ticketing_v.Platform.Numbers.{JsNumber, NumberApi}
use polyglot_ticketing_v.Identity.Auth.{Environment}

-- The options of `ClientsModule.register`; `enums` and `longs` are read as numbers where true.
pub record GrpcClient : Type 0 where
  pub name : String
  pub proto_package : String
  pub proto_path : String
  pub include_dirs : List String
  pub url : String
  pub enums : Bool
  pub longs : Bool

abbrev pub identity_grpc_client : String
identity_grpc_client = "IDENTITY_GRPC_CLIENT"

abbrev pub orders_grpc_client : String
orders_grpc_client = "ORDERS_GRPC_CLIENT"

abbrev pub payments_grpc_client : String
payments_grpc_client = "PAYMENTS_GRPC_CLIENT"

abbrev pub tickets_grpc_client : String
tickets_grpc_client = "TICKETS_GRPC_CLIENT"

unfoldable pub identity_module : Environment → GrpcClient
identity_module env = record {
  name = identity_grpc_client;
  proto_package = "identity.v1";
  proto_path = "proto/identity/v1/identity.proto";
  include_dirs = "proto" ∷ "proto-deps" ∷ [];
  url = default_to "localhost:50051" (env "IDENTITY_GRPC_URL");
  enums = false;
  longs = false;
}

unfoldable pub orders_module : Environment → GrpcClient
orders_module env = record {
  name = orders_grpc_client;
  proto_package = "orders.v1";
  proto_path = "proto/orders/v1/orders.proto";
  include_dirs = "proto" ∷ [];
  url = default_to "localhost:50053" (env "ORDERS_GRPC_URL");
  enums = true;
  longs = true;
}

unfoldable pub payments_module : Environment → GrpcClient
payments_module env = record {
  name = payments_grpc_client;
  proto_package = "payments.v1";
  proto_path = "proto/payments/v1/payments.proto";
  include_dirs = "proto" ∷ [];
  url = default_to "localhost:50054" (env "PAYMENTS_GRPC_URL");
  enums = true;
  longs = true;
}

unfoldable pub tickets_module : Environment → GrpcClient
tickets_module env = record {
  name = tickets_grpc_client;
  proto_package = "tickets.v1";
  proto_path = "proto/tickets/v1/tickets.proto";
  include_dirs = "proto" ∷ [];
  url = default_to "localhost:50052" (env "TICKETS_GRPC_URL");
  enums = false;
  longs = true;
}

pub record Application : Type 0 where
  pub global_prefix : String
  pub cors_credentials : Bool
  pub cors_origin : String
  pub port : JsNumber

unfoldable pub create_api_gateway_application : NumberApi → Environment → Application
create_api_gateway_application numbers env = record {
  global_prefix = "api";
  cors_credentials = true;
  cors_origin = default_to "http://localhost:3001" (env "TICKETING_USER_APP_ORIGIN");
  port = numbers.number (default_to "3000" (env "PORT"));
}
