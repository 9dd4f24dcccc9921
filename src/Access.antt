-- ===== src/Access.antt =====
-- Acting for a tenant's user, and leading users to a tenant's host.
pub mod Impersonation
pub mod Redirects
