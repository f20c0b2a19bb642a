-- ===== src/Store.antt =====
-- packages/vault-core/src/vault_core/sqlite_store.py: the tables of sync state and their recoveries.
pub mod Rows
pub mod Transactions
