-- ===== src/Admin/Users.antt =====
-- The users page, web/apps/admin/src/pages/UsersPage.tsx.
pub mod Defs
pub mod Operations
pub mod Reach
pub mod Guards
pub mod Kept
