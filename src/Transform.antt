-- ===== src/Transform.antt =====
-- internal/infrastructure/transform: filters, dropped and masked columns in front of a sink.
pub mod Chain
pub mod Decorator
