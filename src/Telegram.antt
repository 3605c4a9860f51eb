-- ===== src/Telegram.antt =====
-- bot/internal/telegram: the texts of the alerts, the updates and their dispatch.
pub mod Split
pub mod Upload
pub mod Batches
pub mod Note
pub mod Alert
pub mod Command
mod Examples
pub mod Dispatch
pub mod Order
pub mod Shard
pub mod Poll
pub mod Policy
pub mod Paragraphs
pub mod Privacy
