-- ===== src/Users.antt =====
-- bot/internal/users: the retention period of a tenant.
pub mod Retention
mod Examples
