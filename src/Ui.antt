-- ===== src/Ui.antt =====
-- web/apps/player/src/stores/ui.ts: accent theme, locale and density, and their copies in the
-- browser's storage.
pub mod Store
pub mod Stored
pub mod Reload
