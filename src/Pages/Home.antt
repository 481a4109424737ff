-- ===== src/Pages/Home.antt =====
-- The home page, web/apps/player/src/pages/HomePage.tsx.
pub mod Popular
pub mod Held
pub mod Counts
pub mod Defs
