-- ===== src/PlayerBar.antt =====
-- web/apps/player/src/components/layout/PlayerBar.tsx: the audio element beside the player store, the
-- loading of streams, and what the bar's controls do.
pub mod Defs
pub mod Reach
pub mod Mute
