-- ===== src/Commit/Tests.antt =====
-- A submitted commit that the server has, and one that it has not.
use personal_knowledge_base.Base.{
  ℕ, ◌≤◌, ◌<◌, String, ◌==◌, ◌≡◌, refl, true, false, Option, none, some, List, [], ◌∷◌, All, Has,
  ◌⊎◌,
}
use personal_knowledge_base.Base.Dict.{get, put, delete}
use personal_knowledge_base.Base.Exec.{ok}
use personal_knowledge_base.Models.{
  valid, stale, submitted, CommitIntentJournalRecord, TombstoneRecord, new_tombstone_record,
  VaultStateRecord, new_vault_state_record,
}
use personal_knowledge_base.Manifest.{CanonicalPayload}
use personal_knowledge_base.Recovery.{
  apply_committed_tombstones, apply_submitted_commit_match_recovery,
  normalize_commit_journal_for_recovery, requires_full_pull,
}
use personal_knowledge_base.Store.Rows.{load_commit_intent_journal}
use personal_knowledge_base.Pull.Apply.{Local}
use personal_knowledge_base.Commit.Confirmation.{
  RevisionMetadata, miss, scan_range, plan_submitted_confirmation, resolve_submitted_confirmation,
  validate_scan_revision_metadata, validate_submitted_confirmation_manifest, CommitRecoveryPlan,
  idle, plan_commit_recovery,
}
use personal_knowledge_base.Commit.Recover.{
  SubmittedConfirmationExecutionResult, SubmittedConfirmationRemoteState, matched_at,
  execute_submitted_commit_confirmation_remote_state,
}
use personal_knowledge_base.Commit.Closed.{confirmation-closes}
use personal_knowledge_base.Commit.Exact.{
  plan_of, found_at, confirmation_sound, confirmation_complete,
}

abbrev journal : CommitIntentJournalRecord
journal = record {
  vault_id = "v";
  commit_intent_id = "c1";
  intent_manifest_hash = "sha256:i";
  base_revision = 5;
  created_by_device = "laptop";
  status = submitted;
  created_at = 20;
  updated_at = 21;
  intent_delete_seq_upper_bound = some 1;
}

abbrev metadata : ℕ → String → RevisionMetadata
metadata revision commit_intent_id = record {
  revision = revision;
  commit_intent_id = commit_intent_id;
  intent_manifest_hash = "sha256:i";
  created_by_device = "laptop";
  created_at = 20;
}

abbrev revisions : List RevisionMetadata
revisions = metadata 6 "c1" ∷ metadata 7 "c2" ∷ []

abbrev remote : SubmittedConfirmationRemoteState
remote = record {
  observed_head_revision = 7;
  head_commit_intent_id = "c2";
  revisions = revisions;
  matched_manifest = none;
}

abbrev scan : personal_knowledge_base.Commit.Confirmation.SubmittedConfirmationPlan
scan = plan_of scan_range 7 none (some 6) (some 7)

planned : plan_submitted_confirmation journal 7 "c2" ≡ ok scan
unfolding plan_submitted_confirmation
planned = refl

in_window : validate_scan_revision_metadata scan revisions ≡ ok tt
unfolding validate_scan_revision_metadata
in_window = refl

found : found_at scan journal revisions ≡ some 6
unfolding matched_at resolve_submitted_confirmation
found = refl

confirmation_sound_example :
    ((remote.head_commit_intent_id ≡ journal.commit_intent_id)
      × (6 ≡ remote.observed_head_revision))
    ⊎ ((5 < 6)
        × (6 ≤ 7)
        × ((r : RevisionMetadata) × Has r revisions
            × (r.commit_intent_id ≡ "c1")
            × (r.revision ≡ 6)))
confirmation_sound_example =
    confirmation_sound journal 7 "c2" revisions scan 6 planned in_window found

abbrev no_revisions : List RevisionMetadata
no_revisions = []

abbrev missed : personal_knowledge_base.Commit.Confirmation.SubmittedConfirmationPlan
missed = plan_of miss 5 none none none

planned_miss : plan_submitted_confirmation journal 5 "c0" ≡ ok missed
unfolding plan_submitted_confirmation
planned_miss = refl

not_found : found_at missed journal [] ≡ none
unfolding matched_at resolve_submitted_confirmation
not_found = refl

confirmation_complete_example :
    (("c0" == "c1") ≡ false)
    × ((journal.base_revision ≡ 5) ⊎ All (λ r. (r.commit_intent_id == "c1") ≡ false) no_revisions)
confirmation_complete_example =
    confirmation_complete journal 5 "c0" [] missed planned_miss not_found

abbrev locked : VaultStateRecord
locked = record {
  vault_id = "v";
  last_applied_revision = 5;
  remote_head_revision = 5;
  acked_revision = 5;
  pending_ack_to_server = [];
  commit_in_progress = true;
  last_manifest_summary = some "sha256:5";
  last_manifest_summary_status = valid;
  local_delete_sequence = 1;
  has_unresolved_conflicts = false;
  schema_version = "v1";
  meta = none;
}

abbrev recovered : VaultStateRecord
recovered = record locked {
  last_applied_revision = 6;
  remote_head_revision = 7;
  acked_revision = 6;
  commit_in_progress = false;
  last_manifest_summary = none;
  last_manifest_summary_status = stale;
}

abbrev stone : Option ℕ → TombstoneRecord
stone deleted_revision = record {
  file_id = "e";
  deleted_revision = deleted_revision;
  deleted_at = 19;
  local_delete_seq = 1;
  last_known_path = some "Notes/e.md";
  deleted_by_device = none;
  meta = none;
}

abbrev before : Local
before = record {
  database = record {
    vault_state = ("v", locked) ∷ [];
    sync_apply_journal = [];
    commit_intent_journal = ("v", journal) ∷ [];
  };
  filemap = none;
  ledger = stone none ∷ [];
}

abbrev after : Local
after = record {
  database = record {
    vault_state = ("v", recovered) ∷ [];
    sync_apply_journal = [];
    commit_intent_journal = [];
  };
  filemap = none;
  ledger = stone (some 6) ∷ [];
}

abbrev result : SubmittedConfirmationExecutionResult
result = record {
  plan = scan;
  resolution = record { plan = scan; matched_metadata = some (metadata 6 "c1") };
  recovery = record { state = recovered; tombstones = stone (some 6) ∷ []; needs_full_pull = true };
}

abbrev same : String → String
same s = s

abbrev constant : CanonicalPayload → String
constant payload = "sha256:6"

confirm :
    execute_submitted_commit_confirmation_remote_state same constant "v"
      (stone none ∷ [])
      30
      remote
      before
    ≡ (ok result, after)
unfolding execute_submitted_commit_confirmation_remote_state plan_submitted_confirmation
    resolve_submitted_confirmation validate_scan_revision_metadata
    validate_submitted_confirmation_manifest matched_at get put delete new_tombstone_record
    new_vault_state_record apply_committed_tombstones apply_submitted_commit_match_recovery
    normalize_commit_journal_for_recovery requires_full_pull
confirm = refl

confirmation-closes_example :
    (load_commit_intent_journal after.database "v" ≡ none)
    × ((plan_commit_recovery recovered (load_commit_intent_journal after.database "v")).mode ≡ idle)
confirmation-closes_example =
    confirmation-closes same constant "v" (stone none ∷ []) 30 remote before after result confirm
