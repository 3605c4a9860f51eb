-- ===== src/Messages.antt =====
-- bot/internal/messages: the saved messages, the labels of their chats, and what a deletion enqueues.
pub mod Store
pub mod Media
pub mod Deletion
pub mod Redelivery
pub mod Chunks
pub mod Unique
pub mod Known
pub mod Enqueue
pub mod Groups
mod Examples
