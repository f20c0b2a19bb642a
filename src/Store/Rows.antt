-- ===== src/Store/Rows.antt =====
-- sqlite_store.py: the tables of sync state, one row for each `vault_id`. A row is the record that
-- was written; JSON columns give back what was put in.
use personal_knowledge_base.Base.{
  ℕ, String, Bool, true, false, not, Option, none, some, List, [], is_some, if◌then◌else◌,
}
use personal_knowledge_base.Base.Dict.{Dict, get, put, delete}
use personal_knowledge_base.Base.Exec.{value_error, key_error}
use personal_knowledge_base.Base.State.{Action, ◌>>=◌, ◌>>◌, pure, lift, gets, modify}
use personal_knowledge_base.Models.{
  Meta, VaultStateRecord, new_vault_state_record, valid, CommitIntentJournalRecord,
  new_commit_intent_journal_record, submitted, acknowledged, SyncApplyJournalRecord,
}

pub record Database : Type 0 where
  pub vault_state : Dict VaultStateRecord
  pub sync_apply_journal : Dict SyncApplyJournalRecord
  pub commit_intent_journal : Dict CommitIntentJournalRecord

unfoldable pub load_vault_state : Database → String → Option VaultStateRecord
load_vault_state db vault_id = get db.vault_state vault_id

unfoldable pub upsert_vault_state : VaultStateRecord → Action Database Unit
upsert_vault_state r = modify (λ db. record db { vault_state = put db.vault_state r.vault_id r })

unfoldable pub load_commit_intent_journal : Database → String → Option CommitIntentJournalRecord
load_commit_intent_journal db vault_id = get db.commit_intent_journal vault_id

unfoldable pub upsert_commit_intent_journal : CommitIntentJournalRecord → Action Database Unit
upsert_commit_intent_journal r =
    modify (λ db. record db { commit_intent_journal = put db.commit_intent_journal r.vault_id r })

unfoldable pub clear_commit_intent_journal : String → Action Database Unit
clear_commit_intent_journal vault_id =
    modify (λ db. record db { commit_intent_journal = delete db.commit_intent_journal vault_id })

unfoldable pub load_sync_apply_journal : Database → String → Option SyncApplyJournalRecord
load_sync_apply_journal db vault_id = get db.sync_apply_journal vault_id

unfoldable pub upsert_sync_apply_journal : SyncApplyJournalRecord → Action Database Unit
upsert_sync_apply_journal r =
    modify (λ db. record db { sync_apply_journal = put db.sync_apply_journal r.vault_id r })

unfoldable pub clear_sync_apply_journal : String → Action Database Unit
clear_sync_apply_journal vault_id =
    modify (λ db. record db { sync_apply_journal = delete db.sync_apply_journal vault_id })

-- `summary` is `EMPTY_VAULT_FINAL_MANIFEST_SUMMARY`, a digest.
module _ (summary : String) where
  unfoldable pub build_initial_vault_state :
      (vault_id : String) (local_delete_sequence : ℕ) (has_unresolved_conflicts : Bool)
      (meta : Meta)
      → personal_knowledge_base.Base.Exec.Result VaultStateRecord
  build_initial_vault_state vault_id local_delete_sequence has_unresolved_conflicts meta =
      new_vault_state_record (record {
        vault_id = vault_id;
        last_applied_revision = 0;
        remote_head_revision = 0;
        acked_revision = 0;
        pending_ack_to_server = [];
        commit_in_progress = false;
        last_manifest_summary = some summary;
        last_manifest_summary_status = valid;
        local_delete_sequence = local_delete_sequence;
        has_unresolved_conflicts = has_unresolved_conflicts;
        schema_version = "v1";
        meta = meta;
      })

  create_vault_state : (vault_id : String) → ℕ → Bool → Meta → Action Database VaultStateRecord
  unfolding build_initial_vault_state upsert_vault_state
  create_vault_state vault_id local_delete_sequence has_unresolved_conflicts meta = do
    r ←
        lift
          (build_initial_vault_state vault_id local_delete_sequence has_unresolved_conflicts meta)
    upsert_vault_state r
    pure r

  -- A vault that has a state keeps it.
  unfoldable pub initialize_vault_state :
      (vault_id : String) → ℕ → Bool → Meta → Action Database VaultStateRecord
  unfolding create_vault_state load_vault_state
  initialize_vault_state vault_id local_delete_sequence has_unresolved_conflicts meta = do
    existing ← gets (λ db. load_vault_state db vault_id)
    elim existing [
      | some state ↦ pure state
      | none ↦ create_vault_state vault_id local_delete_sequence has_unresolved_conflicts meta
    ]

normalize_row :
    CommitIntentJournalRecord
    → (normalized_at : ℕ) → Action Database (Option CommitIntentJournalRecord)
unfolding upsert_commit_intent_journal
normalize_row current normalized_at = elim current.status [
  | acknowledged ↦ (do
    normalized ← lift (
        new_commit_intent_journal_record
          (record current { status = submitted; updated_at = normalized_at }))
    upsert_commit_intent_journal normalized
    pure (some normalized))
  | _ ↦ pure (some current)
]

unfoldable pub normalize_legacy_acknowledged_commit_intent :
    (vault_id : String) (normalized_at : ℕ) → Action Database (Option CommitIntentJournalRecord)
unfolding normalize_row load_commit_intent_journal
normalize_legacy_acknowledged_commit_intent vault_id normalized_at = do
  current ← gets (λ db. load_commit_intent_journal db vault_id)
  elim current [ none ↦ pure none | some journal ↦ normalize_row journal normalized_at ]
