-- ===== src/Commit/RestartTests.antt =====
-- A restart after a commit that was prepared and never submitted.
use personal_knowledge_base.Base.{◌≡◌, refl, true, false, none, some, [], ◌∷◌, arith}
use personal_knowledge_base.Base.Exec.{ok}
use personal_knowledge_base.Models.{
  valid, prepared, CommitIntentJournalRecord, VaultStateRecord, new_vault_state_record,
}
use personal_knowledge_base.Base.Dict.{get}
use personal_knowledge_base.Recovery.{apply_prepared_commit_recovery}
use personal_knowledge_base.Store.Rows.{load_vault_state, load_commit_intent_journal}
use personal_knowledge_base.Commit.Restart.{
  Workspace, LocalCommitRecoveryResult, recover_local_commit_state,
}
use personal_knowledge_base.Commit.Idle.{idle_plan}
use personal_knowledge_base.Commit.Settled.{recover_local-settles}

abbrev journal : CommitIntentJournalRecord
journal = record {
  vault_id = "v";
  commit_intent_id = "c1";
  intent_manifest_hash = "sha256:i";
  base_revision = 5;
  created_by_device = "laptop";
  status = prepared;
  created_at = 20;
  updated_at = 20;
  intent_delete_seq_upper_bound = none;
}

abbrev free : VaultStateRecord
free = record {
  vault_id = "v";
  last_applied_revision = 5;
  remote_head_revision = 5;
  acked_revision = 5;
  pending_ack_to_server = [];
  commit_in_progress = false;
  last_manifest_summary = some "sha256:5";
  last_manifest_summary_status = valid;
  local_delete_sequence = 1;
  has_unresolved_conflicts = false;
  schema_version = "v1";
  meta = none;
}

abbrev locked : VaultStateRecord
locked = record free { commit_in_progress = true }

abbrev stopped : Workspace
stopped = record {
  database = record {
    vault_state = ("v", locked) ∷ [];
    sync_apply_journal = [];
    commit_intent_journal = ("v", journal) ∷ [];
  };
  directories = record { staging = ("a.tmp", "one") ∷ []; orphans = [] };
}

has_state : load_vault_state stopped.database "v" ≡ some locked
unfolding load_vault_state get
has_state = refl

unlocks : apply_prepared_commit_recovery locked ≡ ok free
unfolding apply_prepared_commit_recovery new_vault_state_record
unlocks = refl

only_prepared :
    (j : CommitIntentJournalRecord)
    → load_commit_intent_journal stopped.database "v" ≡ some j
    → j.status ≡ prepared
unfolding load_commit_intent_journal get
only_prepared j e = ground arith

recover_local-settles_example :
    (result : LocalCommitRecoveryResult) × (after : Workspace) × (recover_local_commit_state "v"
        stopped
      ≡ (ok result, after))
    × (load_vault_state after.database "v" ≡ some result.state)
    × (result.state.commit_in_progress ≡ false)
    × (load_commit_intent_journal after.database "v" ≡ none)
    × (recover_local_commit_state "v" after
        ≡ (ok (record { plan = idle_plan; state = result.state; moved_staging_paths = [] }), after))
recover_local-settles_example =
    recover_local-settles "v" stopped locked free has_state refl unlocks only_prepared
