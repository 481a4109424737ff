-- ===== src/Catalog.antt =====
-- web/packages/shared/src/api/catalog.ts: tracks, albums and artists over the API client.
pub mod Types
pub mod Lookup
pub mod Operations
pub mod Unique
pub mod Fetching
pub mod Names
pub mod Listing
pub mod Pages
pub mod Detail
