-- ===== src/Pages/Profile.antt =====
-- The profile page, web/apps/player/src/pages/ProfilePage.tsx.
pub mod Legal
pub mod State
pub mod Defs
pub mod Reset
pub mod Password
pub mod Deletion
