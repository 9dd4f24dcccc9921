-- ===== src/Resolving.antt =====
-- Finding the tenant of a request: the built-in resolvers and the chain.
pub mod Builtins
pub mod Registry
pub mod Macro
pub mod Guard
pub mod Legacy
pub mod Universal
