-- ===== src/Tests.antt =====
-- Runs of the model at concrete inputs.
pub mod Orders
pub mod Reservations
pub mod Samples
pub mod Errors
pub mod Identity
pub mod Gateway
pub mod Routes
pub mod Requests
pub mod Boundary
pub mod Answers
pub mod Expiration
pub mod System
pub mod JetStream
pub mod Operations
pub mod Stress
pub mod Serving
