-- ===== src/Admin.antt =====
-- The pages of the administration, of web/apps/admin/src.
pub mod Feedback
pub mod Users
pub mod Metadata
pub mod Scan
pub mod SystemConfig
pub mod Settings
pub mod Login
