-- ===== src/Gateway.antt =====
-- The public REST boundary, apps/api-gateway/src.
pub mod Startup
pub mod Errors
pub mod Identity
pub mod Dates
pub mod Orders
pub mod Payments
pub mod Tickets
pub mod Requests
pub mod Protected
pub mod Metrics
