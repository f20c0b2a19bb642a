-- ===== src/Convergence.antt =====
-- packages/vault-core/src/vault_core/convergence.py: a pulled manifest is merged into the local
-- tombstones and the file map.
pub mod Defs
pub mod Merge
pub mod Tombstones
pub mod Kept
pub mod Filemap
mod Tests
