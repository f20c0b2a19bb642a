-- ===== src/Commit/Submit.antt =====
-- sync_commit.py: from the file map to a submitted journal.
use personal_knowledge_base.Base.{
  ℕ, String, ◌==◌, Bool, not, Option, none, some, List, [], ◌∷◌, any, nat_eq,
}
use personal_knowledge_base.Base.Exec.{value_error, key_error}
use personal_knowledge_base.Base.State.{Action, ◌>>=◌, ◌>>◌, pure, lift, raise_if, require, gets}
use personal_knowledge_base.Models.{
  FileRecord, FileMapDocument, is_conflict_copy, TombstoneRecord, ManifestRecord, VaultStateRecord,
  CommitIntentJournalRecord, new_commit_intent_journal_record, submitted,
}
use personal_knowledge_base.Manifest.{CanonicalPayload, compute_intent_manifest_hash}
use personal_knowledge_base.Store.Rows.{
  Database, load_vault_state, load_commit_intent_journal, upsert_commit_intent_journal,
}
use personal_knowledge_base.Store.Transactions.{is_prepared}
use personal_knowledge_base.Server.Vault.{FileVersionSource}
use personal_knowledge_base.Commit.Prepare.{prepare_commit_intent}
use personal_knowledge_base.Commit.Entries.{build_commit_manifest}
use personal_knowledge_base.Commit.Snapshot.{
  ContentSnapshotPlan, build_content_snapshot_plan, build_commit_manifest_from_snapshot_plan,
}

pub record FileVersionCommitDirective : Type 0 where
  pub file_id : String
  pub source : FileVersionSource
  pub version_label : Option String
  pub change_note : Option String
  pub is_pinned : Bool

pub record CommitSubmissionBundle : Type 0 where
  pub manifest : ManifestRecord
  pub intent_manifest_hash : String
  pub journal : CommitIntentJournalRecord
  pub state : VaultStateRecord
  pub snapshot_plan : Option ContentSnapshotPlan
  pub file_version_directives : List FileVersionCommitDirective

pub record FrozenCommitPreparationBundle : Type 0 where
  pub journal : CommitIntentJournalRecord
  pub state : VaultStateRecord
  pub snapshot_plan : ContentSnapshotPlan

abbrev pub has_unresolved_conflict_copy : FileMapDocument → Bool
has_unresolved_conflict_copy document =
    any (λ (r : FileRecord). is_conflict_copy r.status) document.files

module _ (nfc : String → String) (digest : CanonicalPayload → String) where
  unfoldable pub prepare_frozen_commit_intent :
      VaultStateRecord
      → FileMapDocument
      → (commit_intent_id created_by_device : String) → (created_at : ℕ)
      → Action Database FrozenCommitPreparationBundle
  unfolding prepare_commit_intent build_content_snapshot_plan
  prepare_frozen_commit_intent state document commit_intent_id created_by_device created_at = do
    raise_if (has_unresolved_conflict_copy document)
        (value_error "document contains unresolved conflict_copy entries" [])
    preparation ← prepare_commit_intent state commit_intent_id created_by_device created_at
    plan ←
        lift (build_content_snapshot_plan nfc document preparation.journal.base_revision created_at)
    pure (record { journal = preparation.journal; state = preparation.state; snapshot_plan = plan })

  -- The manifest, from the plan where there is one.
  unfoldable pub submitted_manifest :
      (vault_id : String)
      → CommitIntentJournalRecord
      → FileMapDocument
      → List TombstoneRecord
      → Option ContentSnapshotPlan
      → Action Database ManifestRecord
  unfolding build_commit_manifest build_commit_manifest_from_snapshot_plan
  submitted_manifest vault_id journal document tombstones none = lift (
      build_commit_manifest nfc document tombstones journal.base_revision journal.created_by_device
        journal.created_at)
  submitted_manifest vault_id journal document tombstones (some plan) = do
    raise_if (not (plan.vault_id == vault_id))
        (value_error "snapshot_plan vault_id does not match submitted commit vault" [])
    raise_if (not (nat_eq plan.base_revision journal.base_revision))
        (value_error "snapshot_plan base_revision does not match prepared journal" [])
    raise_if (not (nat_eq plan.created_at journal.created_at))
        (value_error "snapshot_plan created_at does not match prepared journal" [])
    lift (
        build_commit_manifest_from_snapshot_plan nfc document plan tombstones journal.base_revision
          journal.created_by_device journal.created_at)

  unfoldable pub submit_prepared_commit :
      (vault_id : String)
      → FileMapDocument
      → List TombstoneRecord
      → (submitted_at : ℕ) → Option ContentSnapshotPlan
      → Action Database CommitSubmissionBundle
  unfolding submitted_manifest compute_intent_manifest_hash load_vault_state
      load_commit_intent_journal upsert_commit_intent_journal new_commit_intent_journal_record
  submit_prepared_commit vault_id document tombstones submitted_at snapshot_plan = do
    row ← gets (λ db. load_commit_intent_journal db vault_id)
    journal ← require row (key_error "commit_intent_journal not found" (vault_id ∷ []))
    raise_if (not (is_prepared journal.status))
        (value_error "prepared journal is required before submitting a commit" [])
    state_row ← gets (λ db. load_vault_state db vault_id)
    state ← require state_row (key_error "vault_state not found" (vault_id ∷ []))
    manifest ← submitted_manifest vault_id journal document tombstones snapshot_plan
    submitted_journal ← lift (
        new_commit_intent_journal_record (record journal {
          intent_manifest_hash = compute_intent_manifest_hash nfc digest manifest;
          status = submitted;
          updated_at = submitted_at;
        }))
    upsert_commit_intent_journal submitted_journal
    pure (record {
      manifest = manifest;
      intent_manifest_hash = compute_intent_manifest_hash nfc digest manifest;
      journal = submitted_journal;
      state = state;
      snapshot_plan = none;
      file_version_directives = [];
    })

  unfoldable pub prepare_commit_submission :
      VaultStateRecord
      → FileMapDocument
      → List TombstoneRecord
      → (commit_intent_id created_by_device : String) → (created_at : ℕ)
      → Action Database CommitSubmissionBundle
  unfolding prepare_frozen_commit_intent submit_prepared_commit
  prepare_commit_submission state document tombstones commit_intent_id created_by_device
        created_at =
      do
        frozen ←
            prepare_frozen_commit_intent state document commit_intent_id created_by_device
              created_at
        submission ←
            submit_prepared_commit state.vault_id document tombstones created_at
              (some frozen.snapshot_plan)
        pure (record submission { snapshot_plan = some frozen.snapshot_plan })
