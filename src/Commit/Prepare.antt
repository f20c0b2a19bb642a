-- ===== src/Commit/Prepare.antt =====
-- sync_commit.py: the journal that is written before a commit, and the lock on the state.
use personal_knowledge_base.Base.{
  ℕ, String, nat_eq, true, Option, none, some, [], ◌∷◌, is_some, if◌then◌else◌,
}
use personal_knowledge_base.Base.Exec.{Result, value_error, key_error}
use personal_knowledge_base.Base.State.{Action, ◌>>=◌, ◌>>◌, pure, lift, raise_if, require, gets}
use personal_knowledge_base.Models.{
  VaultStateRecord, new_vault_state_record, CommitIntentJournalRecord,
  new_commit_intent_journal_record, prepared,
}
use personal_knowledge_base.Recovery.{should_block_new_commit}
use personal_knowledge_base.Store.Rows.{
  Database, load_commit_intent_journal, upsert_commit_intent_journal, upsert_vault_state,
}
use personal_knowledge_base.Store.Transactions.{
  recover_prepared_commit_cleanup, recover_submitted_commit_miss,
}

unfoldable pub apply_commit_submitted_state : VaultStateRecord → Result VaultStateRecord
apply_commit_submitted_state state =
    new_vault_state_record (record state { commit_in_progress = true })

pub record CommitPreparationBundle : Type 0 where
  pub journal : CommitIntentJournalRecord
  pub state : VaultStateRecord

-- The bound is the last local deletion, if there is one.
abbrev delete_bound : ℕ → Option ℕ
delete_bound sequence = if nat_eq sequence 0 then none else some sequence

abbrev pub intent_of : VaultStateRecord → String → String → ℕ → CommitIntentJournalRecord
intent_of state commit_intent_id created_by_device created_at = record {
  vault_id = state.vault_id;
  commit_intent_id = commit_intent_id;
  intent_manifest_hash = "pending";
  base_revision = state.last_applied_revision;
  created_by_device = created_by_device;
  status = prepared;
  created_at = created_at;
  updated_at = created_at;
  intent_delete_seq_upper_bound = delete_bound state.local_delete_sequence;
}

unfoldable pub prepare_commit_intent :
    VaultStateRecord
    → (commit_intent_id created_by_device : String) → (created_at : ℕ)
    → Action Database CommitPreparationBundle
unfolding load_commit_intent_journal should_block_new_commit apply_commit_submitted_state
    upsert_commit_intent_journal upsert_vault_state
prepare_commit_intent state commit_intent_id created_by_device created_at = do
  active ← gets (λ db. is_some (load_commit_intent_journal db state.vault_id))
  raise_if (should_block_new_commit state active)
      (value_error "vault_state is not eligible to start a new commit" [])
  journal ← lift (
      new_commit_intent_journal_record
        (intent_of state commit_intent_id created_by_device created_at))
  updated ← lift (apply_commit_submitted_state state)
  upsert_commit_intent_journal journal
  upsert_vault_state updated
  pure (record { journal = journal; state = updated })

unfoldable pub cleanup_failed_commit_submission :
    (vault_id : String) (normalized_at : ℕ) → Action Database VaultStateRecord
unfolding load_commit_intent_journal recover_prepared_commit_cleanup recover_submitted_commit_miss
cleanup_failed_commit_submission vault_id normalized_at = do
  row ← gets (λ db. load_commit_intent_journal db vault_id)
  journal ← require row (key_error "commit_intent_journal not found" (vault_id ∷ []))
  elim journal.status [
    | prepared ↦ recover_prepared_commit_cleanup vault_id
    | _ ↦ recover_submitted_commit_miss vault_id normalized_at
  ]
