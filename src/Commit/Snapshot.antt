-- ===== src/Commit/Snapshot.antt =====
-- sync_commit.py: the plan that freezes the files of a commit, and the manifest that is built from it.
use Prim.Native.String.{◌++◌}
use personal_knowledge_base.Base.{
  ℕ, String, ◌==◌, Bool, true, false, not, ◌&&◌, ◌||◌, Option, none, some, List, [], ◌∷◌, any,
  filter, map, nat_eq, length, if◌then◌else◌,
}
use personal_knowledge_base.Base.Dict.{Dict, get}
use personal_knowledge_base.Base.Index.{is_in, index}
use personal_knowledge_base.Base.Sort.{sorted}
use personal_knowledge_base.Base.Text.{str_leb}
use personal_knowledge_base.Base.Exec.{
  Result, ok, raise_if, require, ◌>>=◌, ◌>>◌, traverse, value_error, key_error,
}
use personal_knowledge_base.Models.{
  Json, null, bool, num, FileType, type_eq, FileRecord, FileMapDocument, is_active, TombstoneRecord,
  ManifestFileEntry, new_manifest_file_entry, ManifestRecord,
}
use personal_knowledge_base.Paths.Decimal.{decimal}
use personal_knowledge_base.Commit.Entries.{
  get_field, text_field, build_manifest_file_entry, active_files, validate_commit_document_paths,
  require_tombstones, pending_manifest,
}

pub record ContentSnapshotFile : Type 0 where
  pub file_id : String
  pub path : String
  pub type : FileType
  pub content_hash : String
  pub blob_id : String
  pub size : ℕ
  pub mtime : ℕ
  pub mime_type : Option String
  pub source_version_token : String
  pub snapshot_path : String
  pub blob_staging_path : String

pub record ContentSnapshotPlan : Type 0 where
  pub vault_id : String
  pub base_revision : ℕ
  pub created_at : ℕ
  pub files : List ContentSnapshotFile

unfoldable pub snapshot_plain_path : (file_id : String) → String
snapshot_plain_path file_id = ".noteapp/staging/" ++ (file_id ++ ".snapshot.plain")

unfoldable pub blob_staging_path_of : (blob_id : String) → String
blob_staging_path_of blob_id = ".noteapp/staging/" ++ (blob_id ++ ".blob.staging")

-- The field of a file's `meta`, which may be missing.
abbrev meta_field : FileRecord → String → Option Json
meta_field r key = elim r.meta [ none ↦ none | some fields ↦ get_field fields key ]

-- The text of a number in a token.
abbrev number_text : Option Json → Option String
number_text (some (num n)) = some (decimal n)
number_text (some (bool true)) = some "True"
number_text (some (bool false)) = some "False"
number_text _ = none

abbrev token_of : FileRecord → String → Option String → Option String → String
token_of r content_hash (some mtime) (some size) =
    "mtime:" ++ (mtime ++ (":size:" ++ (size ++ (":hash:" ++ content_hash))))
token_of r content_hash _ _ = "updated_at:" ++ (decimal r.updated_at ++ (":hash:" ++ content_hash))

-- `meta.get("source_version_token")`: `None`, or a text that is not empty
abbrev given_token : FileRecord → Option (Option String)
given_token r = elim (meta_field r "source_version_token") [
  | none ↦ some none
  | some null ↦ some none
  | some other ↦ elim (text_field (some other)) [ none ↦ none | some s ↦ some (some s) ]
]

unfoldable pub derive_snapshot_source_version : FileRecord → Result String
unfolding get_field decimal
derive_snapshot_source_version r = do
  given ←
      require (given_token r)
        (value_error "active file has invalid source_version_token" (r.file_id ∷ []))
  elim given [
    | some token ↦ ok token
    | none ↦ do
      content_hash ←
          require r.content_hash
            (value_error "active file is missing content_hash" (r.file_id ∷ []))
      ok (
          token_of r content_hash (number_text (meta_field r "mtime"))
            (number_text (meta_field r "size")))
  ]

abbrev pub frozen_file : ManifestFileEntry → FileRecord → (token : String) → ContentSnapshotFile
frozen_file entry r token = record {
  file_id = r.file_id;
  path = r.path;
  type = r.type;
  content_hash = entry.content_hash;
  blob_id = entry.blob_id;
  size = entry.size;
  mtime = entry.mtime;
  mime_type = entry.mime_type;
  source_version_token = token;
  snapshot_path = snapshot_plain_path r.file_id;
  blob_staging_path = blob_staging_path_of entry.blob_id;
}

unfoldable pub freeze : FileRecord → Result ContentSnapshotFile
unfolding build_manifest_file_entry derive_snapshot_source_version
freeze r = do
  entry ← build_manifest_file_entry r
  token ← derive_snapshot_source_version r
  ok (frozen_file entry r token)

-- `sorted_files`: by path, then by `file_id`
abbrev pub record_leb : FileRecord → FileRecord → Bool
record_leb a b = if a.path == b.path then str_leb a.file_id b.file_id else str_leb a.path b.path

abbrev pub active_sorted : FileMapDocument → List FileRecord
active_sorted document =
    filter (λ (r : FileRecord). is_active r.status) (sorted record_leb document.files)

abbrev pub frozen_key : ContentSnapshotFile → String
frozen_key f = f.file_id

abbrev pub record_key : FileRecord → String
record_key r = r.file_id

module _ (nfc : String → String) where
  unfoldable pub build_content_snapshot_plan :
      FileMapDocument → (base_revision created_at : ℕ) → Result ContentSnapshotPlan
  unfolding validate_commit_document_paths freeze
  build_content_snapshot_plan document base_revision created_at = do
    validate_commit_document_paths nfc document
    files ← traverse freeze (active_sorted document)
    ok (record {
      vault_id = document.vault_id;
      base_revision = base_revision;
      created_at = created_at;
      files = files;
    })

-- The file is gone, has another place or type, or has another version.
unfoldable pub is_drifted : Dict FileRecord → ContentSnapshotFile → Result Bool
unfolding derive_snapshot_source_version
is_drifted current frozen = elim (get current frozen.file_id) [
  | none ↦ ok true
  | some r ↦ if not (r.path == frozen.path && type_eq r.type frozen.type) then ok true else (do
    token ← derive_snapshot_source_version r
    ok (not (token == frozen.source_version_token)))
]

unfoldable pub drift_loop : Dict FileRecord → List ContentSnapshotFile → Result (List String)
unfolding is_drifted
drift_loop current [] = ok []
drift_loop current (frozen ∷ rest) = do
  drifted ← is_drifted current frozen
  others ← drift_loop current rest
  ok (if drifted then frozen.file_id ∷ others else others)

unfoldable pub detect_content_snapshot_drift :
    ContentSnapshotPlan → FileMapDocument → Result (List String)
unfolding drift_loop index
detect_content_snapshot_drift plan document =
    drift_loop (index record_key [] (active_files document)) plan.files

unfoldable pub assert_content_snapshot_plan_matches :
    ContentSnapshotPlan → FileMapDocument → Result (Unit {0})
unfolding detect_content_snapshot_drift
assert_content_snapshot_plan_matches plan document = do
  drifted ← detect_content_snapshot_drift plan document
  raise_if (not (nat_eq (length drifted) 0))
      (value_error "content snapshot drift detected" (sorted str_leb drifted))

unfoldable pub entry_from_snapshot : ContentSnapshotFile → Result ManifestFileEntry
unfolding new_manifest_file_entry
entry_from_snapshot f = new_manifest_file_entry (record {
  file_id = f.file_id;
  path = f.path;
  type = f.type;
  content_hash = f.content_hash;
  blob_id = f.blob_id;
  size = f.size;
  mtime = f.mtime;
  mime_type = f.mime_type;
  meta = none;
})

-- `a != b`, for two sets given as lists
abbrev pub sets_differ : List String → List String → Bool
sets_differ a b = any (λ s. not (is_in s b)) a || any (λ s. not (is_in s a)) b

-- A frozen file of an active one.
abbrev find_frozen : Dict ContentSnapshotFile → FileRecord → Result ContentSnapshotFile
find_frozen frozen r = require (get frozen r.file_id) (key_error r.file_id [])

unfoldable pub check_structure : Dict ContentSnapshotFile → List FileRecord → Result (Unit {0})
check_structure frozen [] = ok tt
check_structure frozen (r ∷ rest) = do
  f ← find_frozen frozen r
  raise_if (not (f.path == r.path && type_eq f.type r.type))
      (value_error "content snapshot plan structure mismatch for file_id" (r.file_id ∷ []))
  check_structure frozen rest

unfoldable pub assert_snapshot_plan_covers_document :
    ContentSnapshotPlan → FileMapDocument → Result (Dict ContentSnapshotFile)
unfolding index check_structure
assert_snapshot_plan_covers_document plan document = do
  raise_if (not (document.vault_id == plan.vault_id))
      (value_error "document vault_id does not match snapshot plan vault" [])
  let frozen = index frozen_key [] plan.files
  raise_if (sets_differ (map record_key (active_files document)) (map frozen_key plan.files))
      (value_error "content snapshot plan active file set does not match document" [])
  check_structure frozen (active_files document)
  ok frozen

abbrev pub frozen_entry : Dict ContentSnapshotFile → FileRecord → Result ManifestFileEntry
frozen_entry frozen r = find_frozen frozen r >>= entry_from_snapshot

unfoldable pub build_commit_manifest_from_snapshot_plan :
    (nfc : String → String)
    → FileMapDocument
    → ContentSnapshotPlan
    → List TombstoneRecord
    → (base_revision : ℕ) → (created_by_device : String) → (created_at : ℕ) → Result ManifestRecord
unfolding validate_commit_document_paths assert_snapshot_plan_covers_document require_tombstones
    entry_from_snapshot
build_commit_manifest_from_snapshot_plan nfc document plan tombstones base_revision
      created_by_device created_at =
    do
      validate_commit_document_paths nfc document
      frozen ← assert_snapshot_plan_covers_document plan document
      require_tombstones document tombstones
      files ← traverse (frozen_entry frozen) (active_files document)
      pending_manifest document files tombstones base_revision created_by_device created_at
