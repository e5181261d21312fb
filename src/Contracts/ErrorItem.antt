-- ===== src/Contracts/ErrorItem.antt =====
-- One error of an error document: `interface ErrorItem`, which
-- apps/api-gateway/src/errors/api-error.ts and apps/identity/src/errors/grpc-error.ts both declare.
use polyglot_ticketing_v.Base.{String, Option}

pub record ErrorItem : Type 0 where
  pub message : String
  pub code : String
  pub field : Option String
