-- ===== src/Outbox.antt =====
-- bot/internal/outbox: the durable queue of alerts and the worker that delivers them.
pub mod Row
pub mod Store
pub mod Delay
pub mod Worker
pub mod Delivery
pub mod Claims
pub mod Leases
pub mod Evolution
pub mod Tenants
mod Examples
