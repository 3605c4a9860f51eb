-- ===== src/Quotas.antt =====
-- bot/internal/quotas/quotas.go: the per-tenant quotas of captures and media.
pub mod Limits
pub mod Ledger
pub mod Tracker
pub mod Admit
pub mod Invariant
pub mod Sections
pub mod Volume
pub mod Memo
pub mod Rate
pub mod Isolation
mod Examples
