-- ===== src/Curation.antt =====
-- web/apps/player/src/lib/curation.ts: the curated playlists of the home page.
pub mod Patterns
pub mod Choice
pub mod Bounds
