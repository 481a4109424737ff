-- ===== src/Services.antt =====
-- web/packages/shared/src/api/ingestion.ts, stream.ts, settings.ts and admin.ts: the services that are
-- called with one request each.
pub mod Types
pub mod Operations
pub mod Bodies
