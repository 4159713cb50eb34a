-- ===== src/Tenant.antt =====
-- The tenant service, apps/tenant-service/src: tenants with their codes, domains and modules.
pub mod Types
pub mod Effects
pub mod Store
pub mod Code
pub mod Domains
pub mod Modules
pub mod Tenants
pub mod Tests
