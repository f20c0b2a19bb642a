-- ===== src/Pull/Tests.antt =====
-- A pull of one file to an empty vault.
use personal_knowledge_base.Base.{
  ℕ, ◌≤◌, ◌⊎◌, String, ◌≡◌, refl, false, Option, none, some, List, [], ◌∷◌, Apart, Has,
}
use personal_knowledge_base.Base.Dict.{get, put, delete}
use personal_knowledge_base.Base.Sort.{sorted}
use personal_knowledge_base.Base.Text.{str_leb}
use personal_knowledge_base.Base.Exec.{ok, traverse}
use personal_knowledge_base.Models.{
  note, active, valid, stale, FileRecord, new_file_record, FileMapDocument, replace_files,
  new_tombstone_record, ManifestFileEntry, ManifestRecord, VaultStateRecord, new_vault_state_record,
}
use personal_knowledge_base.Convergence.Defs.{converge_manifest_state, infer_file_type}
use personal_knowledge_base.Manifest.{CanonicalPayload, compute_manifest_summary_hash}
use personal_knowledge_base.Recovery.{apply_manifest_reconciled_state, sorted_unique_revisions}
use personal_knowledge_base.Pull.Plan.{plan_pull_reconcile, plan_required_blob_ids}
use personal_knowledge_base.Pull.Apply.{Local, ReconcileResult, execute_pull_reconcile}
use personal_knowledge_base.Pull.Blobs.{same_text, HasContent, required_blobs}
use personal_knowledge_base.Pull.Settled.{reconcile-settled}

abbrev entry : String → String → ManifestFileEntry
entry file_id path = record {
  file_id = file_id;
  path = path;
  type = note;
  content_hash = "sha256:1";
  blob_id = "b1";
  size = 3;
  mtime = 10;
  mime_type = none;
  meta = none;
}

abbrev manifest : ManifestRecord
manifest = record {
  vault_id = "v";
  revision = 5;
  base_revision = 4;
  created_by_device = "laptop";
  created_at = 50;
  files = entry "e" "Notes/e.md" ∷ entry "f" "Notes/f.md" ∷ [];
  tombstones = [];
  summary_hash = "sha256:5";
  schema_version = "v1";
  meta = none;
}

abbrev map_of : List FileRecord → ℕ → FileMapDocument
map_of files at = record {
  vault_id = "v";
  updated_at = at;
  files = files;
  schema_version = "v1";
  meta = none;
}

abbrev pulled_file : String → String → FileRecord
pulled_file file_id path = record {
  file_id = file_id;
  path = path;
  type = note;
  status = active;
  updated_at = 60;
  content_hash = some "sha256:1";
  last_known_revision = some 5;
  conflict_source_file_id = none;
  meta = none;
}

abbrev state : VaultStateRecord
state = record {
  vault_id = "v";
  last_applied_revision = 3;
  remote_head_revision = 3;
  acked_revision = 3;
  pending_ack_to_server = [];
  commit_in_progress = false;
  last_manifest_summary = none;
  last_manifest_summary_status = stale;
  local_delete_sequence = 0;
  has_unresolved_conflicts = false;
  schema_version = "v1";
  meta = none;
}

abbrev caught_up : VaultStateRecord
caught_up = record state {
  last_applied_revision = 5;
  remote_head_revision = 5;
  acked_revision = 5;
  pending_ack_to_server = 5 ∷ [];
  last_manifest_summary = some "sha256:5";
  last_manifest_summary_status = valid;
}

abbrev local : VaultStateRecord → Option FileMapDocument → Local
local row filemap = record {
  database = record {
    vault_state = ("v", row) ∷ [];
    sync_apply_journal = [];
    commit_intent_journal = [];
  };
  filemap = filemap;
  ledger = [];
}

abbrev rebuilt : FileMapDocument
rebuilt = map_of (pulled_file "e" "Notes/e.md" ∷ pulled_file "f" "Notes/f.md" ∷ []) 60

abbrev result : ReconcileResult
result = record {
  plan = plan_pull_reconcile state 5;
  state = caught_up;
  applied = some (record {
    convergence = record { filemap = rebuilt; tombstones = []; reclaimed_tombstones = [] };
    state = caught_up;
    required_blob_ids = "b1" ∷ [];
  });
}

abbrev same : String → String
same s = s

abbrev constant : CanonicalPayload → String
constant payload = "sha256:5"

pull :
    execute_pull_reconcile same constant
      (map_of [] 1)
      state
      []
      5
      60
      (some manifest)
      (local state none)
    ≡ (ok result, local caught_up (some rebuilt))
unfolding execute_pull_reconcile converge_manifest_state new_tombstone_record new_file_record
    replace_files get put delete sorted traverse str_leb infer_file_type new_vault_state_record
    apply_manifest_reconciled_state plan_required_blob_ids plan_pull_reconcile
    compute_manifest_summary_hash sorted_unique_revisions
pull = refl

reconcile-settled_example :
    (5 ≤ caught_up.last_applied_revision)
    × (caught_up.last_manifest_summary_status ≡ valid)
    × ((summary : String) × (caught_up.last_manifest_summary ≡ some summary))
reconcile-settled_example =
    reconcile-settled same constant (map_of [] 1) [] 60 state 5 (some manifest) (local state none)
      (local caught_up (some rebuilt)) result pull

required_blobs_example :
    Apart same_text (plan_required_blob_ids rebuilt manifest)
    × ((e : ManifestFileEntry)
        → Has e manifest.files
        → HasContent rebuilt e ⊎ Has e.blob_id (plan_required_blob_ids rebuilt manifest))
required_blobs_example = required_blobs rebuilt manifest
