-- ===== src/Business.antt =====
-- bot/internal/business: the resolution of Business connections, by component and by property.
pub mod Cache
pub mod Order
pub mod Disabled
pub mod Service
pub mod Admission
pub mod Ownership
pub mod Memory
pub mod Reports
pub mod Erased
mod Examples
