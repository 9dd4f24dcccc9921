-- ===== src/Lifecycle.antt =====
-- The lifecycle of a tenant: where tenants are kept, and the hooks round the operations on them.
pub mod Hooks
pub mod Repository
pub mod Jobs
pub mod Retention
pub mod Purge
pub mod Admin
