-- ===== src/Provider.antt =====
-- src/solver/provider.ts: the translation of the native solver's envelope.
pub mod Apportion
pub mod Reached
pub mod Catalog
pub mod Positions
mod Examples
