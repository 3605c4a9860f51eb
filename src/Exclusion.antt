-- ===== src/Exclusion.antt =====
-- bot/internal/tenantexcl: the exclusion of a tenant's erasure and its workers.
pub mod Guard
pub mod Safety
pub mod Refinement
mod Examples
