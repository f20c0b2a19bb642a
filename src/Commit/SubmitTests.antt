-- ===== src/Commit/SubmitTests.antt =====
-- A commit of one note, from the file map to the request.
use personal_knowledge_base.Base.{
  String, ◌≡◌, ◌⊎◌, ◌↔◌, refl, true, false, none, some, [], ◌∷◌, map, is_some, Has, All,
}
use personal_knowledge_base.Base.Dict.{Dict, get, put}
use personal_knowledge_base.Base.Index.{text_set}
use personal_knowledge_base.Base.Sort.{sorted}
use personal_knowledge_base.Base.Exec.{Result, ok, raise, traverse}
use personal_knowledge_base.Models.{
  num, str, end, field, note, active, valid, FileMapDocument, ManifestRecord, VaultStateRecord,
  new_vault_state_record, new_manifest_file_entry,
}
use personal_knowledge_base.Manifest.{CanonicalPayload}
use personal_knowledge_base.Store.Rows.{Database}
use personal_knowledge_base.Server.Vault.{ServerBlob}
use personal_knowledge_base.Server.Commits.{require_commit_blobs_exist}
use personal_knowledge_base.Commit.Prepare.{intent_of}
use personal_knowledge_base.Commit.Entries.{build_commit_manifest}
use personal_knowledge_base.Commit.Snapshot.{
  ContentSnapshotPlan, build_content_snapshot_plan, detect_content_snapshot_drift,
  build_commit_manifest_from_snapshot_plan,
}
use personal_knowledge_base.Commit.Frozen.{fresh_plan-steady, fresh_plan-manifest}
use personal_knowledge_base.Commit.Submit.{CommitSubmissionBundle, prepare_commit_submission}
use personal_knowledge_base.Commit.Submitted.{Recorded, submission-Recorded}
use personal_knowledge_base.Commit.Table.{CommitSnapshotTable}
use personal_knowledge_base.Commit.Network.{
  BlobCheckResult, build_blob_check_request, resolve_blob_check_result, BlobUploadPlanEntry,
  CommitNetworkPlan, build_commit_network_plan,
}
use personal_knowledge_base.Commit.Uploads.{blob_check-partitions}
use personal_knowledge_base.Commit.Named.{OneEach, AllChecked}
use personal_knowledge_base.Commit.Accepted.{received_ref, network_plan-passes}

abbrev same : String → String
same s = s

abbrev no_digest : CanonicalPayload → String
no_digest payload = "sha256:d"

abbrev document : FileMapDocument
document = record {
  vault_id = "v";
  updated_at = 4;
  files =
      record {
        file_id = "f1";
        path = "a.md";
        type = note;
        status = active;
        updated_at = 4;
        content_hash = some "sha256:1";
        last_known_revision = none;
        conflict_source_file_id = none;
        meta = some (field "blob_id" (str "b1") (field "size" (num 3) (field "mtime" (num 4) end)));
      }
      ∷ [];
  schema_version = "v1";
  meta = none;
}

abbrev value_or {ℓ} : {A : Type ℓ} → A → Result A → A
value_or a (ok b) = b
value_or a (raise e) = a

abbrev no_plan : ContentSnapshotPlan
no_plan = record { vault_id = ""; base_revision = 0; created_at = 0; files = [] }

unfoldable plan : ContentSnapshotPlan
unfolding build_content_snapshot_plan
plan = value_or no_plan (build_content_snapshot_plan same document 2 7)

planned : build_content_snapshot_plan same document 2 7 ≡ ok plan
unfolding build_content_snapshot_plan plan traverse sorted get put
planned = refl

fresh_plan-steady_example : detect_content_snapshot_drift plan document ≡ ok []
fresh_plan-steady_example = fresh_plan-steady same document 2 7 plan planned (tt, tt)

fresh_plan-manifest_example :
    build_commit_manifest_from_snapshot_plan same document plan [] 2 "d1" 7
    ≡ build_commit_manifest same document [] 2 "d1" 7
fresh_plan-manifest_example =
    fresh_plan-manifest same document 2 7 plan planned (tt, tt) [] 2 "d1" 7

abbrev state : VaultStateRecord
state = record {
  vault_id = "v";
  last_applied_revision = 2;
  remote_head_revision = 2;
  acked_revision = 2;
  pending_ack_to_server = [];
  commit_in_progress = false;
  last_manifest_summary = some "sha256:0";
  last_manifest_summary_status = valid;
  local_delete_sequence = 0;
  has_unresolved_conflicts = false;
  schema_version = "v1";
  meta = none;
}

abbrev database : Database
database = record { vault_state = []; sync_apply_journal = []; commit_intent_journal = [] }

abbrev no_manifest : ManifestRecord
no_manifest = record {
  vault_id = "";
  revision = 0;
  base_revision = 0;
  created_by_device = "";
  created_at = 0;
  files = [];
  tombstones = [];
  summary_hash = "";
  schema_version = "";
  meta = none;
}

abbrev no_submission : CommitSubmissionBundle
no_submission = record {
  manifest = no_manifest;
  intent_manifest_hash = "";
  journal = intent_of state "" "" 0;
  state = state;
  snapshot_plan = none;
  file_version_directives = [];
}

unfoldable outcome : Result CommitSubmissionBundle × Database
unfolding prepare_commit_submission
outcome = prepare_commit_submission same no_digest state document [] "c1" "d1" 7 database

submits :
    prepare_commit_submission same no_digest state document [] "c1" "d1" 7 database
    ≡ (ok (value_or no_submission outcome.0), outcome.1)
unfolding prepare_commit_submission outcome traverse sorted get put new_vault_state_record
submits = refl

submission-Recorded_example :
    Recorded same no_digest state document [] "c1" "d1" 7 outcome.1
      (value_or no_submission outcome.0)
submission-Recorded_example =
    submission-Recorded same no_digest state document [] "c1" "d1" 7 database outcome.1
      (value_or no_submission outcome.0) (tt, tt) submits

abbrev table : CommitSnapshotTable
table = record {
  vault_id = "v";
  base_revision = 2;
  created_at = 7;
  entries =
      record {
        file_id = "f1";
        path = "a.md";
        type = note;
        content_hash = "sha256:1";
        blob_id = "b1";
        plaintext_size = 3;
        encrypted_size = 19;
        mtime = 4;
        mime_type = none;
        snapshot_path = ".noteapp/staging/f1.snapshot.plain";
        blob_staging_path = ".noteapp/staging/b1.blob.staging";
      }
      ∷ [];
}

abbrev check : BlobCheckResult
check = record {
  requested_blob_ids = "b1" ∷ [];
  existing_blob_ids = [];
  missing_blob_ids = "b1" ∷ [];
}

checked : resolve_blob_check_result table [] ("b1" ∷ []) ≡ ok check
unfolding resolve_blob_check_result text_set sorted
checked = refl

blob_check-partitions_example :
    (check.requested_blob_ids ≡ build_blob_check_request table)
    × ((i : String)
        → Has i ("b1" ∷ []) ↔ (Has i check.existing_blob_ids ⊎ Has i check.missing_blob_ids))
    × ((i : String) → Has i check.existing_blob_ids → Has i check.missing_blob_ids → ⊥)
blob_check-partitions_example = blob_check-partitions table [] ("b1" ∷ []) check checked

abbrev submission : CommitSubmissionBundle
submission = value_or no_submission outcome.0

abbrev no_network : CommitNetworkPlan
no_network = record {
  request = record {
    commit_intent_id = "";
    base_revision = 0;
    created_by_device = "";
    intent_manifest_hash = "";
    intent_delete_seq_upper_bound = none;
    manifest = no_manifest;
    blob_refs = [];
    file_version_directives = [];
  };
  blob_check = check;
  blob_uploads = record { vault_id = ""; entries = [] };
}

unfoldable network : CommitNetworkPlan
unfolding build_commit_network_plan outcome
network = value_or no_network (build_commit_network_plan submission table check)

network_built : build_commit_network_plan submission table check ≡ ok network
unfolding build_commit_network_plan network outcome traverse sorted get put new_vault_state_record
    text_set
network_built = refl

abbrev blobs : Dict ServerBlob
blobs =
    (
      "b1",
      record {
        blob_id = "b1";
        vault_id = "v";
        object_key = "v/b1";
        storage_backend = "local";
        status = "available";
        encrypted_size = 19;
        content_hash = "sha256:1";
        encrypted_sha256 = none;
        uploaded_at_ms = 5;
      },
    )
    ∷ []

All-uploaded :
    All
      (λ (u : BlobUploadPlanEntry). is_some (get blobs u.blob_id) ≡ true)
      network.blob_uploads.entries
unfolding build_commit_network_plan network outcome traverse sorted get put new_vault_state_record
    text_set
All-uploaded = (refl, tt)

one_entry : OneEach table.entries
one_entry = (tt, tt)

files_checked : AllChecked submission.manifest.files
unfolding new_manifest_file_entry outcome get new_vault_state_record traverse put
files_checked = (refl, tt)

network_plan-passes_example :
    (require_commit_blobs_exist blobs (map received_ref network.request.blob_refs) ≡ ok tt)
    × (network.request.manifest.base_revision ≡ network.request.base_revision)
    × (network.request.manifest.vault_id ≡ "v")
network_plan-passes_example =
    network_plan-passes submission table [] ("b1" ∷ []) check network blobs checked network_built tt
      All-uploaded one_entry files_checked
