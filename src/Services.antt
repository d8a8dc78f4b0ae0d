-- ===== src/Services.antt =====
-- internal/core/services: the registry of sinks, and the service that fans batches out to them.
pub mod Registry
pub mod Deliver
pub mod Batch
