-- ===== src/Erasure.antt =====
-- bot/internal/erasure: the confirmed deletion of a tenant's data.
pub mod Code
pub mod Requests
pub mod Confirm
pub mod Rows
pub mod Lifecycle
mod Examples
