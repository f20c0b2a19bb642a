-- ===== src/Server.antt =====
-- apps/backend/noteapp-server/sync_store.py: the vaults that the server keeps. A JSON object is the
-- record that the code writes there, so that its tests for values of another JSON type are types. An
-- exception in a method that changes the state leaves the state as it was, as `_update_state` and the
-- order of `_save` do.
pub mod Chunks
pub mod Ranges
pub mod Vault
pub mod Manifests
pub mod Versions
pub mod Commits
pub mod Collect
pub mod Devices
pub mod Removal
pub mod Queries
pub mod Effects
pub mod Log
pub mod Steps
pub mod History
pub mod Once
pub mod Active
pub mod Reclaimed
pub mod Summary
pub mod Split
pub mod Retained
pub mod Samples
mod CollectTests
mod Tests
