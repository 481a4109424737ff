-- ===== src/Library.antt =====
-- web/apps/player/src/lib/library.ts: the playlist of favorites and what was added to it last.
pub mod Defs
pub mod Recent
pub mod Order
pub mod Saving
