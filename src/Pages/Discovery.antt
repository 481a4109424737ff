-- ===== src/Pages/Discovery.antt =====
-- The discovery page, web/apps/player/src/pages/DiscoveryPage.tsx.
pub mod Loop
pub mod Defs
