-- ===== src/Isolation.antt =====
-- The isolation of tenants: identifiers, drivers and their registry.
pub mod Identifier
pub mod Registry
pub mod SchemaPg
pub mod Scoping
pub mod RowScope
pub mod DatabasePg
