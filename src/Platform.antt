-- ===== src/Platform.antt =====
-- Third-party parts that the services call, as interfaces: operations with the laws that the
-- services rely on.
pub mod Metadata
pub mod Buffer
pub mod MetricsServer
pub mod WebHeaders
pub mod Dates
pub mod MsgHeaders
pub mod JetStream
pub mod Numbers
pub mod Urls
pub mod ClassValidator
