-- ===== src/Identity.antt =====
-- The identity service, apps/identity/src: a gRPC service in front of Better Auth.
pub mod Startup
pub mod Errors
pub mod Mappers
pub mod SessionCookie
pub mod RequestHeaders
pub mod Timestamp
pub mod Service
pub mod Metrics
pub mod Auth
pub mod Migration
