-- ===== src/Commit.antt =====
-- packages/vault-core/src/vault_core/sync_commit.py and sync_apply.py: after an interruption, whether a
-- commit that was submitted reached the server, and the recovery from either answer.
pub mod Confirmation
pub mod Recover
pub mod Closed
pub mod Exact
pub mod Restart
pub mod Idle
pub mod Settled
pub mod Prepare
pub mod Abandon
pub mod Finalize
pub mod Interrupted
pub mod Entries
pub mod Snapshot
pub mod Frozen
pub mod Submit
pub mod Submitted
pub mod Table
pub mod Network
pub mod Uploads
pub mod Planned
pub mod Named
pub mod Accepted
mod AbandonTests
mod InterruptedTests
mod RestartTests
mod Tests
mod SubmitTests
