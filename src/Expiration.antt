-- ===== src/Expiration.antt =====
-- The expiration service, apps/expiration/src/expiration: it consumes the OrderCreated events of
-- JetStream, schedules a job for the expiry of each order, and publishes ExpirationComplete.
pub mod Constants
pub mod Effects
pub mod Scheduler
pub mod System
pub mod Handler
pub mod Metrics
pub mod Consumer
pub mod Processor
pub mod DeadLetter
pub mod JetStream
pub mod RedisConfig
pub mod ReplayCommand
