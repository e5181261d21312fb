-- ===== src/Gateway/Identity.antt =====
-- The session boundary of the gateway, apps/api-gateway/src/identity.
pub mod Headers
pub mod Cookie
pub mod Metadata
pub mod AuthService
pub mod Session
pub mod AuthController
