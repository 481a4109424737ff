-- ===== src/Admin/Settings.antt =====
-- The page of the media settings, web/apps/admin/src/pages/SettingsPage.tsx.
pub mod Bitrates
pub mod Defs
pub mod RoundTrip
