-- ===== src/Schema.antt =====
-- internal/infrastructure/schema: the changes of the tables' schemas that the decoder reports.
pub mod Recorder
