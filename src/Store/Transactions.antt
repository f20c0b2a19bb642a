-- ===== src/Store/Transactions.antt =====
-- sqlite_store.py: the recoveries, which rewrite several rows in one transaction.
use personal_knowledge_base.Base.{ℕ, String, Bool, true, false, not, Option, [], is_some}
use personal_knowledge_base.Base.Dict.{get, put, delete}
use personal_knowledge_base.Base.Exec.{value_error, key_error}
use personal_knowledge_base.Base.State.{
  Action, ◌>>=◌, ◌>>◌, pure, lift, raise_if, require, gets, modify,
}
use personal_knowledge_base.Models.{
  VaultStateRecord, CommitIntentJournalRecord, CommitIntentStatus, prepared, submitted,
  acknowledged,
}
use personal_knowledge_base.Recovery.{
  apply_sync_finalizing_recovery, apply_prepared_commit_recovery,
  apply_orphaned_commit_lock_recovery, apply_commit_success_state,
  apply_submitted_commit_match_recovery, apply_submitted_commit_miss_recovery,
  normalize_commit_journal_for_recovery,
}
use personal_knowledge_base.Store.Rows.{Database}

-- The two rows that most recoveries need: if one is missing they raise.
abbrev pub both_rows : String → Action Database (VaultStateRecord × CommitIntentJournalRecord)
both_rows vault_id = do
  state ← gets (λ db. get db.vault_state vault_id)
  journal ← gets (λ db. get db.commit_intent_journal vault_id)
  state' ← require state (key_error "vault_state and commit_intent_journal must both exist" [])
  journal' ← require journal (key_error "vault_state and commit_intent_journal must both exist" [])
  pure (state', journal')

-- `with connection:` the state is written and the commit journal's row deleted, at once.
abbrev pub close_commit : String → VaultStateRecord → Database → Database
close_commit vault_id recovered db = record db {
  vault_state = put db.vault_state recovered.vault_id recovered;
  commit_intent_journal = delete db.commit_intent_journal vault_id;
}

-- The same, after the journal's row was rewritten with a normalised status. To write an equal row
-- is the update that the source leaves out.
abbrev pub close_normalized :
    String → CommitIntentJournalRecord → VaultStateRecord → Database → Database
close_normalized vault_id normalized recovered db =
    close_commit vault_id recovered
      (record db { commit_intent_journal = put db.commit_intent_journal vault_id normalized })

abbrev pub is_prepared : CommitIntentStatus → Bool
is_prepared prepared = true
is_prepared submitted = false
is_prepared acknowledged = false

abbrev pub is_submitted : CommitIntentStatus → Bool
is_submitted prepared = false
is_submitted submitted = true
is_submitted acknowledged = false

unfoldable pub recover_prepared_commit_cleanup : String → Action Database VaultStateRecord
recover_prepared_commit_cleanup vault_id = do
  rows ← both_rows vault_id
  raise_if (not (is_prepared rows.1.status))
      (value_error "prepared recovery requires a prepared journal" [])
  recovered ← lift (apply_prepared_commit_recovery rows.0)
  modify (close_commit vault_id recovered)
  pure recovered

unfoldable pub recover_orphaned_commit_lock : String → Action Database VaultStateRecord
recover_orphaned_commit_lock vault_id = do
  state ← gets (λ db. get db.vault_state vault_id)
  journal ← gets (λ db. get db.commit_intent_journal vault_id)
  state' ← require state (key_error "vault_state must exist" [])
  raise_if (is_some journal)
      (value_error "orphaned commit lock recovery requires no active journal" [])
  raise_if (not state'.commit_in_progress)
      (value_error "orphaned commit lock recovery requires commit_in_progress=true" [])
  recovered ← lift (apply_orphaned_commit_lock_recovery state')
  modify (λ db. record db { vault_state = put db.vault_state recovered.vault_id recovered })
  pure recovered

unfoldable pub finalize_committed_state :
    String
    → (committed_revision : ℕ) → (manifest_summary : String) → Action Database VaultStateRecord
finalize_committed_state vault_id committed_revision manifest_summary = do
  rows ← both_rows vault_id
  raise_if (not (is_submitted rows.1.status))
      (value_error "commit finalization requires a submitted journal" [])
  updated ← lift (apply_commit_success_state rows.0 committed_revision manifest_summary)
  modify (close_commit vault_id updated)
  pure updated

-- The normalised status is written first, and the row is deleted in the same transaction.
unfoldable pub recover_submitted_commit_match :
    String
    → (matched_revision observed_head_revision : ℕ) → (matched_manifest_summary : Option String)
    → (normalized_at : ℕ) → Action Database VaultStateRecord
recover_submitted_commit_match vault_id matched_revision observed_head_revision summary
      normalized_at =
    do
      rows ← both_rows vault_id
      normalized ← lift (normalize_commit_journal_for_recovery rows.1 normalized_at)
      recovered ← lift (
          apply_submitted_commit_match_recovery rows.0 matched_revision observed_head_revision
            summary)
      modify (close_normalized vault_id normalized recovered)
      pure recovered

unfoldable pub recover_submitted_commit_miss :
    String → (normalized_at : ℕ) → Action Database VaultStateRecord
recover_submitted_commit_miss vault_id normalized_at = do
  rows ← both_rows vault_id
  normalized ← lift (normalize_commit_journal_for_recovery rows.1 normalized_at)
  recovered ← lift (apply_submitted_commit_miss_recovery rows.0)
  modify (close_normalized vault_id normalized recovered)
  pure recovered

unfoldable pub recover_sync_apply_finalizing_state : String → Action Database VaultStateRecord
recover_sync_apply_finalizing_state vault_id = do
  state ← gets (λ db. get db.vault_state vault_id)
  journal ← gets (λ db. get db.sync_apply_journal vault_id)
  state' ← require state (key_error "vault_state and sync_apply_journal must both exist" [])
  journal' ← require journal (key_error "vault_state and sync_apply_journal must both exist" [])
  recovered ← lift (apply_sync_finalizing_recovery state' journal')
  modify (λ db. record db {
    vault_state = put db.vault_state recovered.vault_id recovered;
    sync_apply_journal = delete db.sync_apply_journal vault_id;
  })
  pure recovered
