-- ===== src/Dlq.antt =====
-- internal/infrastructure/dlq: the dead-letter queue. A manager counts failures of an event at a sink
-- and parks poison events in a store; the decorator isolates them from their batch by bisection.
pub mod Store
pub mod Manager
pub mod Isolation
pub mod Triage
