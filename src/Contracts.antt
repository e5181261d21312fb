-- ===== src/Contracts.antt =====
-- The enumerations of the protobuf contracts, protogen/ts. A protobuf enumeration is open: a
-- number that the contract does not name is `unrecognized`.
pub mod ErrorItem
pub mod ErrorCode
pub mod OrderStatus
pub mod GrpcStatus
