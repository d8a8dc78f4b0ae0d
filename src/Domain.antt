-- ===== src/Domain.antt =====
-- internal/core/domain: the errors, events and sink interface that all other parts share.
pub mod Errors
pub mod Event
pub mod Sink
pub mod Schema
pub mod RoundTrip
