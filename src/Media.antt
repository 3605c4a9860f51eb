-- ===== src/Media.antt =====
-- bot/internal/media: the catalogue's path rules.
pub mod Path
pub mod Hash
pub mod Catalogue
pub mod Queries
pub mod Safe
pub mod Lifecycle
mod Examples
