-- ===== src/Operations.antt =====
-- packages/vault-core/src/vault_core/operations.py: the edits of the file map.
pub mod Edits
pub mod Conflicts
pub mod Outcomes
pub mod Paths
pub mod Undo
pub mod Reach
mod Tests
