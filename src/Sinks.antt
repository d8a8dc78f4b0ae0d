-- ===== src/Sinks.antt =====
-- internal/adapters/secondary: what the sinks make of a batch before they hand it to their service.
pub mod Meilisearch
pub mod Exclude
pub mod Keys
