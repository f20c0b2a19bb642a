-- ===== src/Commit/Finalize.antt =====
-- sync_commit.py: what the device writes once the server has accepted its commit.
use personal_knowledge_base.Base.{ℕ, String, not, List, [], ◌∷◌}
use personal_knowledge_base.Base.Exec.{Result, value_error, key_error}
use personal_knowledge_base.Base.State.{Action, ◌>>=◌, ◌>>◌, pure, lift, raise_if, require, gets}
use personal_knowledge_base.Models.{TombstoneRecord, ManifestRecord, VaultStateRecord}
use personal_knowledge_base.Manifest.{CanonicalPayload, finalize_manifest_revision}
use personal_knowledge_base.Recovery.{apply_committed_tombstones}
use personal_knowledge_base.Store.Rows.{load_commit_intent_journal}
use personal_knowledge_base.Store.Transactions.{is_submitted, finalize_committed_state}
use personal_knowledge_base.Pull.Apply.{Local, on_database, rewrite_tombstone_ledger}

pub record CommitFinalizeResult : Type 0 where
  pub manifest : ManifestRecord
  pub tombstones : List TombstoneRecord
  pub state : VaultStateRecord

module _ (nfc : String → String) (digest : CanonicalPayload → String) where
  unfoldable pub finalize_commit_manifest :
      ManifestRecord → (committed_revision : ℕ) → Result ManifestRecord
  unfolding finalize_manifest_revision
  finalize_commit_manifest manifest committed_revision =
      finalize_manifest_revision nfc digest manifest committed_revision

  unfoldable pub finalize_commit_submission :
      ManifestRecord
      → (local_tombstones : List TombstoneRecord) → (committed_revision : ℕ)
      → Action Local CommitFinalizeResult
  unfolding finalize_commit_manifest load_commit_intent_journal rewrite_tombstone_ledger
  finalize_commit_submission manifest local_tombstones committed_revision = do
    row ← gets (λ local. load_commit_intent_journal local.database manifest.vault_id)
    journal ← require row (key_error "commit_intent_journal not found" (manifest.vault_id ∷ []))
    raise_if (not (is_submitted journal.status))
        (value_error "commit finalization requires a submitted journal" [])
    finalized ← lift (finalize_commit_manifest manifest committed_revision)
    updated ← lift (apply_committed_tombstones local_tombstones journal committed_revision)
    rewrite_tombstone_ledger updated
    state ←
        on_database
          (finalize_committed_state manifest.vault_id committed_revision finalized.summary_hash)
    pure (record { manifest = finalized; tombstones = updated; state = state })
