-- ===== src/Commit/Table.antt =====
-- sync_commit.py: the table of a commit's files, which the two materializations have to agree on.
use personal_knowledge_base.Base.{
  ℕ, String, ◌==◌, Bool, true, false, not, ◌&&◌, Option, none, some, List, [], ◌∷◌, nat_eq,
}
use personal_knowledge_base.Base.Dict.{Dict, get}
use personal_knowledge_base.Base.Index.{index}
use personal_knowledge_base.Base.Exec.{
  Result, ok, raise_if, require, ◌>>=◌, ◌>>◌, traverse, value_error, key_error,
}
use personal_knowledge_base.Models.{FileType, type_eq}
use personal_knowledge_base.Commit.Snapshot.{ContentSnapshotFile, ContentSnapshotPlan}

pub record MaterializedContentSnapshotFile : Type 0 where
  pub file_id : String
  pub snapshot_path : String
  pub content_hash : String
  pub size_bytes : ℕ

pub record ContentSnapshotMaterializationResult : Type 0 where
  pub snapshot_plan : ContentSnapshotPlan
  pub files : List MaterializedContentSnapshotFile

pub record MaterializedBlobStagingFile : Type 0 where
  pub file_id : String
  pub blob_id : String
  pub snapshot_path : String
  pub blob_staging_path : String
  pub content_hash : String
  pub plaintext_size : ℕ
  pub encrypted_size : ℕ

pub record BlobStagingMaterializationResult : Type 0 where
  pub snapshot_plan : ContentSnapshotPlan
  pub files : List MaterializedBlobStagingFile

pub record CommitSnapshotEntry : Type 0 where
  pub file_id : String
  pub path : String
  pub type : FileType
  pub content_hash : String
  pub blob_id : String
  pub plaintext_size : ℕ
  pub encrypted_size : ℕ
  pub mtime : ℕ
  pub mime_type : Option String
  pub snapshot_path : String
  pub blob_staging_path : String

pub record CommitSnapshotTable : Type 0 where
  pub vault_id : String
  pub base_revision : ℕ
  pub created_at : ℕ
  pub entries : List CommitSnapshotEntry

abbrev pub same_optional : Option String → Option String → Bool
same_optional none none = true
same_optional (some a) (some b) = a == b
same_optional _ _ = false

-- `==` of two dataclasses compares their fields.
abbrev same_file : ContentSnapshotFile → ContentSnapshotFile → Bool
same_file a b =
    a.file_id == b.file_id
    && (a.path == b.path
        && (type_eq a.type b.type
            && (a.content_hash == b.content_hash
                && (a.blob_id == b.blob_id
                    && (nat_eq a.size b.size
                        && (nat_eq a.mtime b.mtime
                            && (same_optional a.mime_type b.mime_type
                                && (a.source_version_token == b.source_version_token
                                    && (a.snapshot_path == b.snapshot_path
                                        && a.blob_staging_path == b.blob_staging_path)))))))))

abbrev same_files : List ContentSnapshotFile → List ContentSnapshotFile → Bool
same_files [] [] = true
same_files (a ∷ xs) (b ∷ ys) = same_file a b && same_files xs ys
same_files _ _ = false

unfoldable pub same_plan : ContentSnapshotPlan → ContentSnapshotPlan → Bool
same_plan a b =
    a.vault_id == b.vault_id
    && (nat_eq a.base_revision b.base_revision
        && (nat_eq a.created_at b.created_at && same_files a.files b.files))

unfoldable pub snapshot_entry :
    Dict MaterializedContentSnapshotFile
    → Dict MaterializedBlobStagingFile
    → ContentSnapshotFile
    → Result CommitSnapshotEntry
snapshot_entry snapshots blobs frozen = do
  snapshot ←
      require (get snapshots frozen.file_id)
        (key_error "materialized snapshot not found for file_id" (frozen.file_id ∷ []))
  blob ←
      require (get blobs frozen.file_id)
        (key_error "materialized blob staging not found for file_id" (frozen.file_id ∷ []))
  raise_if (not (snapshot.content_hash == frozen.content_hash))
      (value_error "materialized snapshot hash mismatch for file_id" (frozen.file_id ∷ []))
  raise_if (not (nat_eq snapshot.size_bytes frozen.size))
      (value_error "materialized snapshot size mismatch for file_id" (frozen.file_id ∷ []))
  raise_if (not (blob.blob_id == frozen.blob_id))
      (value_error "materialized blob id mismatch for file_id" (frozen.file_id ∷ []))
  raise_if (not (blob.content_hash == frozen.content_hash))
      (value_error "materialized blob hash mismatch for file_id" (frozen.file_id ∷ []))
  raise_if (not (nat_eq blob.plaintext_size frozen.size))
      (value_error "materialized blob plaintext size mismatch for file_id" (frozen.file_id ∷ []))
  raise_if (not (blob.snapshot_path == snapshot.snapshot_path))
      (value_error "materialized snapshot path mismatch for file_id" (frozen.file_id ∷ []))
  ok (record {
    file_id = frozen.file_id;
    path = frozen.path;
    type = frozen.type;
    content_hash = frozen.content_hash;
    blob_id = frozen.blob_id;
    plaintext_size = frozen.size;
    encrypted_size = blob.encrypted_size;
    mtime = frozen.mtime;
    mime_type = frozen.mime_type;
    snapshot_path = snapshot.snapshot_path;
    blob_staging_path = blob.blob_staging_path;
  })

unfoldable pub build_commit_snapshot_table :
    ContentSnapshotPlan
    → ContentSnapshotMaterializationResult
    → BlobStagingMaterializationResult
    → Result CommitSnapshotTable
unfolding same_plan snapshot_entry index
build_commit_snapshot_table plan snapshots blobs = do
  raise_if (not (same_plan snapshots.snapshot_plan plan))
      (value_error "snapshot materialization result does not match snapshot plan" [])
  raise_if (not (same_plan blobs.snapshot_plan plan))
      (value_error "blob staging materialization result does not match snapshot plan" [])
  entries ←
      traverse
        (snapshot_entry
          (index (λ (m : MaterializedContentSnapshotFile). m.file_id) [] snapshots.files)
          (index (λ (m : MaterializedBlobStagingFile). m.file_id) [] blobs.files))
        plan.files
  ok (record {
    vault_id = plan.vault_id;
    base_revision = plan.base_revision;
    created_at = plan.created_at;
    entries = entries;
  })
