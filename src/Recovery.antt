-- ===== src/Recovery.antt =====
-- packages/vault-core/src/vault_core/recovery.py: the transitions of the vault's sync state and of
-- its pending tombstones. Each transition builds a record anew, and so repeats its checks.
pub mod Coherence
pub mod Tombstones
pub mod Pending
mod Tests
use personal_knowledge_base.Base.{
  ℕ, max, String, ◌==◌, Bool, true, false, not, Option, none, some, List, [], ◌∷◌, ◌++◌, any, map,
  nat_eq, leb, is_some, if◌then◌else◌,
}
use personal_knowledge_base.Base.Sort.{sorted}
use personal_knowledge_base.Base.Exec.{Result, ok, ◌>>=◌}
use personal_knowledge_base.Models.{
  VaultStateRecord, new_vault_state_record, SummaryStatus, valid, stale, is_valid, TombstoneRecord,
  new_tombstone_record, CommitIntentJournalRecord, new_commit_intent_journal_record,
  CommitIntentStatus, prepared, submitted, acknowledged, SyncApplyJournalRecord,
}

-- `set(revisions)`, as a list that is then sorted
unique : List ℕ → List ℕ
unique [] = []
unique (n ∷ rest) = let rest' = unique rest in if any (nat_eq n) rest then rest' else n ∷ rest'

unfoldable pub sorted_unique_revisions : List ℕ → List ℕ
unfolding unique sorted
sorted_unique_revisions revisions = sorted leb (unique revisions)

unfoldable pub should_block_new_commit : VaultStateRecord → Bool → Bool
should_block_new_commit state has_active_commit_journal =
    if has_active_commit_journal
    then true
    else if state.commit_in_progress
    then true
    else if state.has_unresolved_conflicts
    then true
    else if not (is_valid state.last_manifest_summary_status)
    then true
    else not (is_some state.last_manifest_summary)

-- The source takes `observed_head_revision` too, and does not read it.
unfoldable pub requires_full_pull : VaultStateRecord → Bool
requires_full_pull state =
    if not (is_valid state.last_manifest_summary_status)
    then true
    else if not (is_some state.last_manifest_summary)
    then true
    else false

unfoldable pub apply_manifest_summary_stale : VaultStateRecord → Result VaultStateRecord
apply_manifest_summary_stale state =
    new_vault_state_record
      (record state { last_manifest_summary = none; last_manifest_summary_status = stale })

unfoldable pub apply_manifest_reconciled_state :
    VaultStateRecord → (target_revision : ℕ) → (manifest_summary : String) → Result VaultStateRecord
apply_manifest_reconciled_state state target_revision manifest_summary =
    new_vault_state_record (record state {
      last_applied_revision = max state.last_applied_revision target_revision;
      remote_head_revision = max state.remote_head_revision target_revision;
      acked_revision = max state.acked_revision target_revision;
      pending_ack_to_server =
          sorted_unique_revisions (state.pending_ack_to_server ++ target_revision ∷ []);
      last_manifest_summary = some manifest_summary;
      last_manifest_summary_status = valid;
    })

unfoldable pub apply_sync_finalizing_recovery :
    VaultStateRecord → SyncApplyJournalRecord → Result VaultStateRecord
unfolding apply_manifest_reconciled_state
apply_sync_finalizing_recovery state journal =
    apply_manifest_reconciled_state state journal.target_revision journal.target_manifest_hash

unfoldable pub apply_prepared_commit_recovery : VaultStateRecord → Result VaultStateRecord
apply_prepared_commit_recovery state =
    new_vault_state_record (record state { commit_in_progress = false })

unfoldable pub apply_orphaned_commit_lock_recovery : VaultStateRecord → Result VaultStateRecord
unfolding apply_prepared_commit_recovery
apply_orphaned_commit_lock_recovery state = apply_prepared_commit_recovery state

unfoldable pub apply_commit_success_state :
    VaultStateRecord
    → (committed_revision : ℕ) → (manifest_summary : String) → Result VaultStateRecord
apply_commit_success_state state committed_revision manifest_summary =
    new_vault_state_record (record state {
      last_applied_revision = max state.last_applied_revision committed_revision;
      remote_head_revision = max state.remote_head_revision committed_revision;
      acked_revision = max state.acked_revision committed_revision;
      commit_in_progress = false;
      last_manifest_summary = some manifest_summary;
      last_manifest_summary_status = valid;
    })

abbrev matched_status : Option String → SummaryStatus
matched_status none = stale
matched_status (some summary) = valid

unfoldable pub apply_submitted_commit_match_recovery :
    VaultStateRecord
    → (matched_revision observed_head_revision : ℕ) → (matched_manifest_summary : Option String)
    → Result VaultStateRecord
apply_submitted_commit_match_recovery state matched_revision observed_head_revision summary =
    new_vault_state_record (record state {
      last_applied_revision = max state.last_applied_revision matched_revision;
      remote_head_revision = max state.remote_head_revision observed_head_revision;
      acked_revision = max state.acked_revision matched_revision;
      commit_in_progress = false;
      last_manifest_summary = summary;
      last_manifest_summary_status = matched_status summary;
    })

unfoldable pub apply_submitted_commit_miss_recovery : VaultStateRecord → Result VaultStateRecord
unfolding apply_prepared_commit_recovery
apply_submitted_commit_miss_recovery state = apply_prepared_commit_recovery state

-- The deletions that the journal's commit carries: not yet committed, and made before it.
unfoldable pub is_pending : CommitIntentJournalRecord → TombstoneRecord → Bool
is_pending journal r =
    if is_some r.deleted_revision then false else elim journal.intent_delete_seq_upper_bound [
      | some bound ↦ leb r.local_delete_seq bound
      | none ↦ leb r.deleted_at journal.created_at
    ]

unfoldable pub select_pending_tombstones_for_commit :
    List TombstoneRecord → CommitIntentJournalRecord → List TombstoneRecord
unfolding is_pending
select_pending_tombstones_for_commit [] journal = []
select_pending_tombstones_for_commit (r ∷ rest) journal =
    let selected = select_pending_tombstones_for_commit rest journal in
    if is_pending journal r then r ∷ selected else selected

abbrev pub has_file_id : String → TombstoneRecord → Bool
has_file_id file_id r = r.file_id == file_id

abbrev pub committed : ℕ → TombstoneRecord → TombstoneRecord
committed committed_revision r = record r { deleted_revision = some committed_revision }

unfoldable pub commit_loop :
    List TombstoneRecord → ℕ → List TombstoneRecord → Result (List TombstoneRecord)
commit_loop selected committed_revision [] = ok []
commit_loop selected committed_revision (r ∷ rest) = do
  r' ←
      if any (has_file_id r.file_id) selected
      then new_tombstone_record (committed committed_revision r)
      else ok r
  rest' ← commit_loop selected committed_revision rest
  ok (r' ∷ rest')

unfoldable pub apply_committed_tombstones :
    List TombstoneRecord
    → CommitIntentJournalRecord
    → (committed_revision : ℕ) → Result (List TombstoneRecord)
unfolding commit_loop select_pending_tombstones_for_commit
apply_committed_tombstones tombstones journal committed_revision =
    commit_loop (select_pending_tombstones_for_commit tombstones journal) committed_revision
      tombstones

unfoldable pub normalize_commit_journal_for_recovery :
    CommitIntentJournalRecord → (normalized_at : ℕ) → Result CommitIntentJournalRecord
normalize_commit_journal_for_recovery journal normalized_at = elim journal.status [
  | acknowledged ↦
      new_commit_intent_journal_record
        (record journal { status = submitted; updated_at = normalized_at })
  | _ ↦ ok journal
]
