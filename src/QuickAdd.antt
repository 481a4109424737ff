-- ===== src/QuickAdd.antt =====
-- web/apps/player/src/hooks/useLibraryQuickAdd.ts: saving tracks at a click, with the saves that run
-- at the same time as a step relation.
pub mod Defs
pub mod Reach
