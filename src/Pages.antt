-- ===== src/Pages.antt =====
-- The pages of the player, web/apps/player/src/pages.
pub mod Attempts
pub mod Cards
pub mod Profile
pub mod Discovery
pub mod Home
pub mod Artist
pub mod PlaylistDetail
pub mod LibraryList
pub mod PlaylistList
pub mod AddToPlaylist
pub mod Sidebar
pub mod Entry
pub mod TrackActions
