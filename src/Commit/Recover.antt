-- ===== src/Commit/Recover.antt =====
-- sync_apply.py: the recovery of a submitted commit, which was found on the server or not.
use personal_knowledge_base.Base.{
  ℕ, String, ◌==◌, Bool, false, Option, none, some, List, [], ◌∷◌, if◌then◌else◌,
}
use personal_knowledge_base.Base.Exec.{Result, ok, raise, value_error, key_error}
use personal_knowledge_base.Base.State.{Action, ◌>>=◌, ◌>>◌, pure, lift, require, gets}
use personal_knowledge_base.Models.{TombstoneRecord, ManifestRecord, VaultStateRecord}
use personal_knowledge_base.Manifest.{CanonicalPayload, compute_manifest_summary_hash}
use personal_knowledge_base.Recovery.{apply_committed_tombstones, requires_full_pull}
use personal_knowledge_base.Store.Rows.{Database, load_commit_intent_journal}
use personal_knowledge_base.Store.Transactions.{
  recover_submitted_commit_match, recover_submitted_commit_miss,
}
use personal_knowledge_base.Pull.Apply.{Local, on_database, rewrite_tombstone_ledger}
use personal_knowledge_base.Commit.Confirmation.{
  RevisionMetadata, head_match, miss, scan_range, SubmittedConfirmationPlan,
  SubmittedConfirmationResolution, plan_submitted_confirmation, resolve_submitted_confirmation,
  validate_scan_revision_metadata, validate_submitted_confirmation_manifest,
}

pub record SubmittedRecoveryResult : Type 0 where
  pub state : VaultStateRecord
  pub tombstones : List TombstoneRecord
  pub needs_full_pull : Bool

pub record SubmittedConfirmationExecutionResult : Type 0 where
  pub plan : SubmittedConfirmationPlan
  pub resolution : SubmittedConfirmationResolution
  pub recovery : SubmittedRecoveryResult

pub record SubmittedConfirmationRemoteState : Type 0 where
  pub observed_head_revision : ℕ
  pub head_commit_intent_id : String
  pub revisions : List RevisionMetadata
  pub matched_manifest : Option ManifestRecord

unfoldable pub new_remote_state :
    SubmittedConfirmationRemoteState → Result SubmittedConfirmationRemoteState
new_remote_state self =
    if self.head_commit_intent_id == ""
    then raise (value_error "head_commit_intent_id must be non-empty" [])
    else ok self

-- The revision of the commit, if the server has it: the head's, or that of the record that matches.
unfoldable pub matched_at : SubmittedConfirmationResolution → Option ℕ
matched_at resolution = elim resolution.plan.mode [
  | miss ↦ none
  | head_match ↦ some resolution.plan.observed_head_revision
  | scan_range ↦ elim resolution.matched_metadata [
    | none ↦ none
    | some metadata ↦ some metadata.revision
  ]
]

module _ (nfc : String → String) (digest : CanonicalPayload → String) where
  abbrev summary_of : Option ManifestRecord → Option String
  summary_of none = none
  summary_of (some manifest) = some (compute_manifest_summary_hash nfc digest manifest)

  unfoldable pub recover_submitted_commit_from_manifest :
      String
      → Option ManifestRecord
      → (matched_revision observed_head_revision normalized_at : ℕ)
      → Action Database VaultStateRecord
  unfolding recover_submitted_commit_match
  recover_submitted_commit_from_manifest vault_id matched_manifest matched_revision observed
        normalized_at =
      recover_submitted_commit_match vault_id matched_revision observed
        (summary_of matched_manifest) normalized_at

  unfoldable pub recover_submitted_commit_flow :
      String
      → (local_tombstones : List TombstoneRecord)
      → (matched_revision observed_head_revision normalized_at : ℕ) → Option ManifestRecord
      → Action Local SubmittedRecoveryResult
  unfolding recover_submitted_commit_from_manifest rewrite_tombstone_ledger
      load_commit_intent_journal
  recover_submitted_commit_flow vault_id local_tombstones matched_revision observed normalized_at
        matched_manifest =
      do
        row ← gets (λ local. load_commit_intent_journal local.database vault_id)
        journal ← require row (key_error "commit_intent_journal not found" (vault_id ∷ []))
        updated ← lift (apply_committed_tombstones local_tombstones journal matched_revision)
        state ← on_database (
            recover_submitted_commit_from_manifest vault_id matched_manifest matched_revision
              observed normalized_at)
        rewrite_tombstone_ledger updated
        pure (record {
          state = state;
          tombstones = updated;
          needs_full_pull = requires_full_pull state;
        })

  -- What is done once it is known whether the server has the commit.
  unfoldable pub recover_resolved :
      String
      → (local_tombstones : List TombstoneRecord) → (normalized_at : ℕ)
      → SubmittedConfirmationRemoteState
      → Option ℕ
      → Action Local SubmittedRecoveryResult
  unfolding recover_submitted_commit_flow recover_submitted_commit_miss
  recover_resolved vault_id local_tombstones normalized_at remote none = do
    state ← on_database (recover_submitted_commit_miss vault_id normalized_at)
    pure (record { state = state; tombstones = local_tombstones; needs_full_pull = false })
  recover_resolved vault_id local_tombstones normalized_at remote (some revision) =
      recover_submitted_commit_flow vault_id local_tombstones revision remote.observed_head_revision
        normalized_at remote.matched_manifest

  unfoldable pub execute_submitted_commit_confirmation_remote_state :
      String
      → (local_tombstones : List TombstoneRecord) → (normalized_at : ℕ)
      → SubmittedConfirmationRemoteState
      → Action Local SubmittedConfirmationExecutionResult
  unfolding recover_resolved load_commit_intent_journal
  execute_submitted_commit_confirmation_remote_state vault_id local_tombstones normalized_at
        remote =
      do
        row ← gets (λ local. load_commit_intent_journal local.database vault_id)
        journal ← require row (key_error "commit_intent_journal not found" (vault_id ∷ []))
        plan ← lift (
            plan_submitted_confirmation journal remote.observed_head_revision
              remote.head_commit_intent_id)
        lift (validate_scan_revision_metadata plan remote.revisions)
        let resolution =
            resolve_submitted_confirmation plan journal.commit_intent_id remote.revisions
        lift (
            validate_submitted_confirmation_manifest vault_id plan resolution
              remote.matched_manifest)
        recovery ←
            recover_resolved vault_id local_tombstones normalized_at remote (matched_at resolution)
        pure (record { plan = plan; resolution = resolution; recovery = recovery })

  unfoldable pub execute_submitted_commit_confirmation :
      String
      → (local_tombstones : List TombstoneRecord) → (observed_head_revision : ℕ)
      → (head_commit_intent_id : String) → (normalized_at : ℕ) → List RevisionMetadata
      → Option ManifestRecord
      → Action Local SubmittedConfirmationExecutionResult
  unfolding execute_submitted_commit_confirmation_remote_state new_remote_state
  execute_submitted_commit_confirmation vault_id local_tombstones observed head_commit_intent_id
        normalized_at revisions matched_manifest =
      do
        remote ← lift (
            new_remote_state (record {
              observed_head_revision = observed;
              head_commit_intent_id = head_commit_intent_id;
              revisions = revisions;
              matched_manifest = matched_manifest;
            }))
        execute_submitted_commit_confirmation_remote_state vault_id local_tombstones normalized_at
            remote
