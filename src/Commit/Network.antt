-- ===== src/Commit/Network.antt =====
-- sync_commit.py: which blobs of a commit are to be uploaded, and the request that is sent.
use personal_knowledge_base.Base.{
  ℕ, String, ◌==◌, Bool, true, false, not, ◌&&◌, ◌||◌, Option, none, some, List, [], ◌∷◌, ◌++◌,
  filter, map, nat_eq, length, if◌then◌else◌,
}
use personal_knowledge_base.Base.Dict.{Dict, get, put}
use personal_knowledge_base.Base.Index.{is_in, text_set, index}
use personal_knowledge_base.Base.Sort.{sorted}
use personal_knowledge_base.Base.Text.{str_leb}
use personal_knowledge_base.Base.Exec.{
  Result, ok, raise_if, require, ◌>>=◌, ◌>>◌, value_error, key_error,
}
use personal_knowledge_base.Models.{type_eq, ManifestFileEntry, ManifestRecord}
use personal_knowledge_base.Commit.Snapshot.{sets_differ}
use personal_knowledge_base.Commit.Submit.{CommitSubmissionBundle, FileVersionCommitDirective}
use personal_knowledge_base.Commit.Table.{CommitSnapshotEntry, CommitSnapshotTable, same_optional}

pub record BlobCheckResult : Type 0 where
  pub requested_blob_ids : List String
  pub existing_blob_ids : List String
  pub missing_blob_ids : List String

-- `sorted(set(texts))`
abbrev pub sorted_set : List String → List String
sorted_set texts = sorted str_leb (text_set texts)

abbrev pub blob_id_of : CommitSnapshotEntry → String
blob_id_of e = e.blob_id

unfoldable pub build_blob_check_request : CommitSnapshotTable → List String
unfolding text_set
build_blob_check_request table = sorted_set (map blob_id_of table.entries)

-- An error that quotes the offending ids, if there are any.
abbrev pub refuse : String → List String → Result (Unit {0})
refuse message ids = raise_if (not (nat_eq (length ids) 0)) (value_error message (sorted_set ids))

unfoldable pub resolve_blob_check_result :
    CommitSnapshotTable
    → (existing_blob_ids missing_blob_ids : List String) → Result BlobCheckResult
unfolding build_blob_check_request
resolve_blob_check_result table existing missing = do
  let requested = build_blob_check_request table
  refuse "blob check response contains unknown blob_ids"
      (filter (λ i. not (is_in i requested)) (existing ++ missing))
  refuse "blob check response contains overlapping blob_ids"
      (filter (λ i. is_in i missing) existing)
  refuse "blob check response does not cover requested blob_ids"
      (filter (λ i. not (is_in i existing || is_in i missing)) requested)
  ok (record {
    requested_blob_ids = requested;
    existing_blob_ids = sorted_set existing;
    missing_blob_ids = sorted_set missing;
  })

pub record BlobUploadPlanEntry : Type 0 where
  pub blob_id : String
  pub content_hash : String
  pub encrypted_size : ℕ
  pub blob_staging_path : String
  pub file_ids : List String

pub record BlobUploadPlan : Type 0 where
  pub vault_id : String
  pub entries : List BlobUploadPlanEntry

abbrev pub first_upload : CommitSnapshotEntry → BlobUploadPlanEntry
first_upload e = record {
  blob_id = e.blob_id;
  content_hash = e.content_hash;
  encrypted_size = e.encrypted_size;
  blob_staging_path = e.blob_staging_path;
  file_ids = e.file_id ∷ [];
}

-- Another file with a blob that is in the plan.
unfoldable pub share_upload : BlobUploadPlanEntry → CommitSnapshotEntry → Result BlobUploadPlanEntry
share_upload existing e = do
  raise_if (not (existing.content_hash == e.content_hash))
      (value_error "blob upload plan content hash mismatch for blob_id" (e.blob_id ∷ []))
  raise_if (not (nat_eq existing.encrypted_size e.encrypted_size))
      (value_error "blob upload plan encrypted size mismatch for blob_id" (e.blob_id ∷ []))
  raise_if (not (existing.blob_staging_path == e.blob_staging_path))
      (value_error "blob upload plan staging path mismatch for blob_id" (e.blob_id ∷ []))
  ok (record existing { file_ids = existing.file_ids ++ e.file_id ∷ [] })

-- One round of the loop over the table.
unfoldable pub plan_upload :
    (missing : List String)
    → Dict BlobUploadPlanEntry
    → CommitSnapshotEntry
    → Result (Dict BlobUploadPlanEntry)
unfolding share_upload
plan_upload missing uploads e =
    if is_in e.blob_id missing
    then elim (get uploads e.blob_id) [
      | none ↦ ok (put uploads e.blob_id (first_upload e))
      | some existing ↦ share_upload existing e >>= (λ u. ok (put uploads e.blob_id u))
    ]
    else ok uploads

unfoldable pub upload_loop :
    (missing : List String)
    → Dict BlobUploadPlanEntry
    → List CommitSnapshotEntry
    → Result (Dict BlobUploadPlanEntry)
unfolding plan_upload
upload_loop missing uploads [] = ok uploads
upload_loop missing uploads (e ∷ rest) =
    plan_upload missing uploads e >>= (λ more. upload_loop missing more rest)

abbrev pub upload_leb : String × BlobUploadPlanEntry → String × BlobUploadPlanEntry → Bool
upload_leb a b = str_leb a.0 b.0

abbrev pub upload_of : String × BlobUploadPlanEntry → BlobUploadPlanEntry
upload_of a = a.1

unfoldable pub build_blob_upload_plan :
    CommitSnapshotTable → (missing_blob_ids : List String) → Result BlobUploadPlan
unfolding upload_loop
build_blob_upload_plan table missing = do
  refuse "missing blob_ids are not present in commit snapshot table"
      (filter (λ i. not (is_in i (map blob_id_of table.entries))) missing)
  uploads ← upload_loop missing [] table.entries
  ok (record { vault_id = table.vault_id; entries = map upload_of (sorted upload_leb uploads) })

pub record CreateCommitBlobRef : Type 0 where
  pub blob_id : String
  pub file_id : String

pub record CreateCommitRequestPayload : Type 0 where
  pub commit_intent_id : String
  pub base_revision : ℕ
  pub created_by_device : String
  pub intent_manifest_hash : String
  pub intent_delete_seq_upper_bound : Option ℕ
  pub manifest : ManifestRecord
  pub blob_refs : List CreateCommitBlobRef
  pub file_version_directives : List FileVersionCommitDirective

abbrev pub entry_key : CommitSnapshotEntry → String
entry_key e = e.file_id

abbrev pub manifest_key : ManifestFileEntry → String
manifest_key r = r.file_id

unfoldable pub check_entry :
    Dict CommitSnapshotEntry → String × ManifestFileEntry → Result (Unit {0})
check_entry entries item = do
  e ← require (get entries item.0) (key_error item.0 [])
  let r = item.1
  raise_if (not (r.path == e.path && type_eq r.type e.type))
      (value_error "commit submission manifest structure mismatch for file_id" (item.0 ∷ []))
  raise_if (not (r.content_hash == e.content_hash))
      (value_error "commit submission manifest content hash mismatch for file_id" (item.0 ∷ []))
  raise_if (not (r.blob_id == e.blob_id))
      (value_error "commit submission manifest blob id mismatch for file_id" (item.0 ∷ []))
  raise_if (not (nat_eq r.size e.plaintext_size))
      (value_error "commit submission manifest size mismatch for file_id" (item.0 ∷ []))
  raise_if (not (nat_eq r.mtime e.mtime))
      (value_error "commit submission manifest mtime mismatch for file_id" (item.0 ∷ []))
  raise_if (not (same_optional r.mime_type e.mime_type))
      (value_error "commit submission manifest mime_type mismatch for file_id" (item.0 ∷ []))

unfoldable pub check_entries :
    Dict CommitSnapshotEntry → List (String × ManifestFileEntry) → Result (Unit {0})
unfolding check_entry
check_entries entries [] = ok tt
check_entries entries (item ∷ rest) = check_entry entries item >> check_entries entries rest

-- By `(file_id, blob_id)`
abbrev pub ref_leb : CommitSnapshotEntry → CommitSnapshotEntry → Bool
ref_leb a b =
    if a.file_id == b.file_id then str_leb a.blob_id b.blob_id else str_leb a.file_id b.file_id

abbrev pub blob_ref_of : CommitSnapshotEntry → CreateCommitBlobRef
blob_ref_of e = record { blob_id = e.blob_id; file_id = e.file_id }

unfoldable pub build_create_commit_request_payload :
    CommitSubmissionBundle → CommitSnapshotTable → Result CreateCommitRequestPayload
unfolding check_entries index
build_create_commit_request_payload submission table = do
  raise_if (not (submission.manifest.vault_id == table.vault_id))
      (value_error "snapshot table vault_id does not match commit submission manifest" [])
  raise_if (not (nat_eq submission.journal.base_revision table.base_revision))
      (value_error "snapshot table base_revision does not match commit journal" [])
  raise_if (not (nat_eq submission.journal.created_at table.created_at))
      (value_error "snapshot table created_at does not match commit journal" [])
  raise_if (not (nat_eq submission.manifest.base_revision submission.journal.base_revision))
      (value_error "commit manifest base_revision does not match commit journal" [])
  raise_if (sets_differ (map manifest_key submission.manifest.files) (map entry_key table.entries))
      (value_error "commit submission manifest files do not match snapshot table entries" [])
  check_entries (index entry_key [] table.entries) (index manifest_key [] submission.manifest.files)
  ok (record {
    commit_intent_id = submission.journal.commit_intent_id;
    base_revision = submission.journal.base_revision;
    created_by_device = submission.journal.created_by_device;
    intent_manifest_hash = submission.intent_manifest_hash;
    intent_delete_seq_upper_bound = submission.journal.intent_delete_seq_upper_bound;
    manifest = submission.manifest;
    blob_refs = map blob_ref_of (sorted ref_leb table.entries);
    file_version_directives = submission.file_version_directives;
  })

pub record CommitNetworkPlan : Type 0 where
  pub request : CreateCommitRequestPayload
  pub blob_check : BlobCheckResult
  pub blob_uploads : BlobUploadPlan

abbrev pub same_texts : List String → List String → Bool
same_texts [] [] = true
same_texts (s ∷ ss) (t ∷ ts) = s == t && same_texts ss ts
same_texts _ _ = false

unfoldable pub build_commit_network_plan :
    CommitSubmissionBundle → CommitSnapshotTable → BlobCheckResult → Result CommitNetworkPlan
unfolding build_create_commit_request_payload build_blob_upload_plan build_blob_check_request
build_commit_network_plan submission table blob_check = do
  raise_if (not (same_texts blob_check.requested_blob_ids (build_blob_check_request table)))
      (value_error "blob check result does not match snapshot table blob_ids" [])
  request ← build_create_commit_request_payload submission table
  uploads ← build_blob_upload_plan table blob_check.missing_blob_ids
  ok (record { request = request; blob_check = blob_check; blob_uploads = uploads })
