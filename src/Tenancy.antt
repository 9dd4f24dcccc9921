-- ===== src/Tenancy.antt =====
-- Activation of a tenant's context: the bootstrapper registry, the log context and `tenancy.run`.
pub mod Bootstrap
pub mod Context
