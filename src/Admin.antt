-- ===== src/Admin.antt =====
-- internal/admin: the guards of the admin interface.
pub mod Limits
pub mod Permissions
pub mod Repository
pub mod Auth
pub mod Handlers
pub mod Traces
mod Tests
