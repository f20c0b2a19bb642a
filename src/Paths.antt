-- ===== src/Paths.antt =====
-- packages/vault-core/src/vault_core/paths.py: names that are free in a directory. A directory is the
-- list of its names, and a name is split as `pathlib` does it.
pub mod Decimal
pub mod Names
pub mod Free
pub mod Staged
pub mod Isolated
mod Tests
