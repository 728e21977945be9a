-- ===== src/Tenants.antt =====
-- internal/tenantdir: from a tenant to the endpoint that its tools are called at.
pub mod Directory
pub mod Changes
pub mod Parsing
pub mod Reached
pub mod Examples
