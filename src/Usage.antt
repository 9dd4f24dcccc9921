-- ===== src/Usage.antt =====
-- What tenants use: quotas and read replicas.
pub mod Quota
pub mod Replica
