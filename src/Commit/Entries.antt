-- ===== src/Commit/Entries.antt =====
-- sync_commit.py: the manifest of a commit, from the file map of the device.
use personal_knowledge_base.Base.{
  ℕ, String, ◌==◌, true, false, not, ◌&&◌, Option, none, some, List, [], ◌∷◌, filter, map, nat_eq,
  length, is_some, if◌then◌else◌,
}
use personal_knowledge_base.Base.Dict.{Dict, get, put}
use personal_knowledge_base.Base.Index.{is_in, text_set}
use personal_knowledge_base.Base.Sort.{sorted}
use personal_knowledge_base.Base.Text.{str_leb}
use personal_knowledge_base.Base.Exec.{
  Result, ok, raise, raise_if, require, ◌>>=◌, ◌>>◌, traverse, value_error,
}
use personal_knowledge_base.Models.{
  Json, null, bool, num, str, Fields, end, field, FileRecord, FileMapDocument, is_active,
  is_deleted, is_conflict_copy, TombstoneRecord, ManifestFileEntry, new_manifest_file_entry,
  ManifestRecord, new_manifest_record,
}

-- `meta.get(key)`, of an object with each key once
unfoldable pub get_field : Fields → String → Option Json
get_field end key = none
get_field (field k value rest) key = if k == key then some value else get_field rest key

-- A text that is not empty.
abbrev pub text_field : Option Json → Option String
text_field (some (str s)) = if s == "" then none else some s
text_field _ = none

-- A non-negative integer. A Python `bool` is one too.
abbrev pub number_field : Option Json → Option ℕ
number_field (some (num n)) = some n
number_field (some (bool true)) = some 1
number_field (some (bool false)) = some 0
number_field _ = none

-- `None`, or a text
abbrev pub mime_field : Option Json → Option (Option String)
mime_field none = some none
mime_field (some null) = some none
mime_field (some (str s)) = some (some s)
mime_field _ = none

unfoldable pub build_manifest_file_entry : FileRecord → Result ManifestFileEntry
unfolding get_field new_manifest_file_entry
build_manifest_file_entry r = do
  content_hash ←
      require r.content_hash (value_error "active file is missing content_hash" (r.file_id ∷ []))
  meta ← require r.meta (value_error "active file is missing manifest metadata" (r.file_id ∷ []))
  blob_id ←
      require (text_field (get_field meta "blob_id"))
        (value_error "active file is missing blob_id" (r.file_id ∷ []))
  size ←
      require (number_field (get_field meta "size"))
        (value_error "active file is missing size" (r.file_id ∷ []))
  mtime ←
      require (number_field (get_field meta "mtime"))
        (value_error "active file is missing mtime" (r.file_id ∷ []))
  mime_type ←
      require (mime_field (get_field meta "mime_type"))
        (value_error "active file has invalid mime_type" (r.file_id ∷ []))
  new_manifest_file_entry (record {
    file_id = r.file_id;
    path = r.path;
    type = r.type;
    content_hash = content_hash;
    blob_id = blob_id;
    size = size;
    mtime = mtime;
    mime_type = mime_type;
    meta = none;
  })

abbrev pub active_files : FileMapDocument → List FileRecord
active_files document = filter (λ (r : FileRecord). is_active r.status) document.files

module _ (nfc : String → String) where
  -- The ids of the active files by normalized path.
  unfoldable pub active_paths : Dict String → List FileRecord → Result (Dict String)
  active_paths seen [] = ok seen
  active_paths seen (r ∷ rest) =
      let after = active_paths (put seen (nfc r.path) r.file_id) rest in
      elim (get seen (nfc r.path)) [
        | none ↦ after
        | some previous ↦ raise (
            value_error "active file paths collide after NFC normalization"
              (previous ∷ r.file_id ∷ []))
      ]

  unfoldable pub check_copies : Dict String → List FileRecord → Result (Unit {0})
  check_copies paths [] = ok tt
  check_copies paths (r ∷ rest) = do
    raise_if (is_conflict_copy r.status && is_some (get paths (nfc r.path))) (
        value_error "conflict copy path overlaps active file path after NFC normalization"
          (r.file_id ∷ []))
    check_copies paths rest

  unfoldable pub validate_commit_document_paths : FileMapDocument → Result (Unit {0})
  unfolding active_paths check_copies
  validate_commit_document_paths document = do
    paths ← active_paths [] (active_files document)
    check_copies paths document.files

abbrev tombstone_ids : List TombstoneRecord → List String
tombstone_ids = map (λ (r : TombstoneRecord). r.file_id)

abbrev deleted_ids : FileMapDocument → List String
deleted_ids document =
    map (λ (r : FileRecord). r.file_id)
      (filter (λ (r : FileRecord). is_deleted r.status) document.files)

-- The deleted files that have no tombstone.
unfoldable pub missing_tombstones : FileMapDocument → List TombstoneRecord → List String
unfolding text_set
missing_tombstones document tombstones =
    sorted str_leb
      (text_set (filter (λ i. not (is_in i (tombstone_ids tombstones))) (deleted_ids document)))

unfoldable pub require_tombstones : FileMapDocument → List TombstoneRecord → Result (Unit {0})
unfolding missing_tombstones
require_tombstones document tombstones =
    raise_if (not (nat_eq (length (missing_tombstones document tombstones)) 0)) (
      value_error "deleted filemap entries are missing tombstones"
        (missing_tombstones document tombstones))

-- A manifest that the server has not numbered yet.
abbrev pub pending_manifest :
    FileMapDocument
    → List ManifestFileEntry
    → List TombstoneRecord
    → (base_revision : ℕ) → (created_by_device : String) → (created_at : ℕ) → Result ManifestRecord
pending_manifest document files tombstones base_revision created_by_device created_at =
    new_manifest_record (record {
      vault_id = document.vault_id;
      revision = 0;
      base_revision = base_revision;
      created_by_device = created_by_device;
      created_at = created_at;
      files = files;
      tombstones = tombstones;
      summary_hash = "pending";
      schema_version = "v1";
      meta = none;
    })

unfoldable pub build_commit_manifest :
    (nfc : String → String)
    → FileMapDocument
    → List TombstoneRecord
    → (base_revision : ℕ) → (created_by_device : String) → (created_at : ℕ) → Result ManifestRecord
unfolding validate_commit_document_paths require_tombstones build_manifest_file_entry
    new_manifest_record
build_commit_manifest nfc document tombstones base_revision created_by_device created_at = do
  validate_commit_document_paths nfc document
  require_tombstones document tombstones
  files ← traverse build_manifest_file_entry (active_files document)
  pending_manifest document files tombstones base_revision created_by_device created_at
