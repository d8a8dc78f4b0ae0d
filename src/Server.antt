-- ===== src/Server.antt =====
-- internal/infrastructure/server: what the dashboard of the gateway shows.
pub mod History
pub mod Stats
pub mod Health
