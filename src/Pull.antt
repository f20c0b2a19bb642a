-- ===== src/Pull.antt =====
-- packages/vault-core/src/vault_core/sync_plan.py, sync_reconcile.py and the pull of sync_apply.py.
pub mod Plan
pub mod Apply
pub mod Blobs
pub mod Settled
mod Tests
