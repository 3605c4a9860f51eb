-- ===== src/App.antt =====
-- bot/internal/app: what the bot does with an update.
pub mod Transient
pub mod Retry
pub mod Effects
pub mod Commands
pub mod Save
pub mod Control
pub mod Handler
pub mod Answers
pub mod Tenancy
pub mod Authority
pub mod Secrecy
pub mod Fence
mod Examples
