-- ===== src/Artwork.antt =====
-- web/apps/player/src/lib/artwork.ts: the gradient that stands in for a cover.
pub mod Defs
pub mod Range
