-- ===== src/Commit/InterruptedTests.antt =====
-- The end of a commit on a small device.
use personal_knowledge_base.Base.{
  ℕ, String, ◌≡◌, refl, true, false, Option, none, some, List, [], ◌∷◌,
}
use personal_knowledge_base.Base.Dict.{get, put, delete}
use personal_knowledge_base.Base.Exec.{ok}
use personal_knowledge_base.Models.{
  valid, submitted, CommitIntentJournalRecord, TombstoneRecord, new_tombstone_record,
  VaultStateRecord, new_vault_state_record, ManifestRecord, new_manifest_record,
}
use personal_knowledge_base.Manifest.{
  CanonicalPayload, final_payload, intent_payload, TombstonePayload, compute_manifest_summary_hash,
}
use personal_knowledge_base.Recovery.{
  apply_committed_tombstones, apply_commit_success_state, requires_full_pull,
}
use personal_knowledge_base.Store.Transactions.{finalize_committed_state}
use personal_knowledge_base.Pull.Apply.{Local}
use personal_knowledge_base.Commit.Recover.{recover_submitted_commit_flow}
use personal_knowledge_base.Commit.Finalize.{CommitFinalizeResult, finalize_commit_submission}
use personal_knowledge_base.Commit.Interrupted.{resummarized, ended, finalize-interrupted}

abbrev journal : CommitIntentJournalRecord
journal = record {
  vault_id = "v";
  commit_intent_id = "c1";
  intent_manifest_hash = "sha256:i";
  base_revision = 5;
  created_by_device = "laptop";
  status = submitted;
  created_at = 20;
  updated_at = 21;
  intent_delete_seq_upper_bound = some 1;
}

abbrev locked : VaultStateRecord
locked = record {
  vault_id = "v";
  last_applied_revision = 5;
  remote_head_revision = 5;
  acked_revision = 5;
  pending_ack_to_server = [];
  commit_in_progress = true;
  last_manifest_summary = some "sha256:5";
  last_manifest_summary_status = valid;
  local_delete_sequence = 1;
  has_unresolved_conflicts = false;
  schema_version = "v1";
  meta = none;
}

abbrev stone : Option ℕ → TombstoneRecord
stone deleted_revision = record {
  file_id = "e";
  deleted_revision = deleted_revision;
  deleted_at = 19;
  local_delete_seq = 1;
  last_known_path = some "Notes/e.md";
  deleted_by_device = none;
  meta = none;
}

abbrev finished : VaultStateRecord
finished = record locked {
  last_applied_revision = 6;
  remote_head_revision = 6;
  acked_revision = 6;
  commit_in_progress = false;
  last_manifest_summary = some "sha256:6";
}

abbrev manifest : ManifestRecord
manifest = record {
  vault_id = "v";
  revision = 0;
  base_revision = 5;
  created_by_device = "laptop";
  created_at = 20;
  files = [];
  tombstones = stone none ∷ [];
  summary_hash = "placeholder";
  schema_version = "v1";
  meta = none;
}

abbrev finalized : ManifestRecord
finalized = record manifest { revision = 6; summary_hash = "sha256:6" }

abbrev before : Local
before = record {
  database = record {
    vault_state = ("v", locked) ∷ [];
    sync_apply_journal = [];
    commit_intent_journal = ("v", journal) ∷ [];
  };
  filemap = none;
  ledger = stone none ∷ [];
}

abbrev after : Local
after = record {
  database = record {
    vault_state = ("v", finished) ∷ [];
    sync_apply_journal = [];
    commit_intent_journal = [];
  };
  filemap = none;
  ledger = stone (some 6) ∷ [];
}

abbrev result : CommitFinalizeResult
result = record { manifest = finalized; tombstones = stone (some 6) ∷ []; state = finished }

abbrev same : String → String
same s = s

-- A digest that tells whether the first deletion is dated.
abbrev of_deletion : Option ℕ → String
of_deletion none = "sha256:6"
of_deletion (some revision) = "sha256:dated"

abbrev of_deletions : List TombstonePayload → String
of_deletions [] = "sha256:0"
of_deletions (t ∷ rest) = of_deletion t.record_.deleted_revision

abbrev by_date : CanonicalPayload → String
by_date (final_payload version revision files tombstones) = of_deletions tombstones
by_date (intent_payload version vault base device at files tombstones) = of_deletions tombstones

finalize :
    finalize_commit_submission same by_date manifest (stone none ∷ []) 6 before ≡ (ok result, after)
unfolding finalize_commit_submission finalize_committed_state get put delete new_tombstone_record
    new_vault_state_record new_manifest_record apply_committed_tombstones apply_commit_success_state
    compute_manifest_summary_hash
finalize = refl

-- The server's manifest, with the deletion dated.
abbrev dated : ManifestRecord
dated = record finalized { tombstones = stone (some 6) ∷ []; summary_hash = "sha256:dated" }

finalize-interrupted_example :
    let recovered = resummarized finished (compute_manifest_summary_hash same by_date dated) in
    (recover_submitted_commit_flow same by_date "v"
        (stone (some 6) ∷ [])
        6
        6
        40
        (some dated)
        (record before { ledger = stone (some 6) ∷ [] })
      ≡ (
        ok (record {
          state = recovered;
          tombstones = stone (some 6) ∷ [];
          needs_full_pull = requires_full_pull recovered;
        }),
        ended "v" recovered (stone (some 6) ∷ []) before,
      ))
    × (after ≡ ended "v" finished (stone (some 6) ∷ []) before)
finalize-interrupted_example =
    finalize-interrupted same by_date manifest dated (stone none ∷ []) 6 40 before after result
      finalize
