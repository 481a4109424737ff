-- ===== src/Player.antt =====
-- web/apps/player/src/stores/player.ts: the queue, the transport controls and the history of
-- recently played tracks, with the copy of the history in `localStorage`.
pub mod State
pub mod History
pub mod Transport
pub mod Actions
pub mod Places
pub mod Invariant
pub mod Runs
pub mod Play
pub mod Reload
pub mod Traversal
