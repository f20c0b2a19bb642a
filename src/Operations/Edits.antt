-- ===== src/Operations/Edits.antt =====
-- operations.py: additions, renames and deletions.
use personal_knowledge_base.Base.{
  ℕ, String, ◌==◌, Bool, false, not, Option, none, some, List, [], ◌∷◌, ◌++◌, any, first_some,
  if◌then◌else◌,
}
use personal_knowledge_base.Base.Exec.{
  Result, ok, value_error, key_error, raise_if, require, ◌>>=◌, ◌>>◌,
}
use personal_knowledge_base.Models.{
  FileType, active, deleted, is_deleted, FileRecord, new_file_record, FileMapDocument,
  replace_files, TombstoneRecord, new_tombstone_record,
}

-- `ignore_file_id is not None and record.file_id == ignore_file_id`
abbrev is_ignored : Option String → FileRecord → Bool
is_ignored none r = false
is_ignored (some i) r = r.file_id == i

-- The test under which the loop of `_assert_path_available` raises.
abbrev pub occupies : String → Option String → FileRecord → Bool
occupies path ignore r =
    if is_ignored ignore r then false else if is_deleted r.status then false else r.path == path

unfoldable pub assert_path_available : FileMapDocument → String → Option String → Result (Unit {0})
assert_path_available document path ignore =
    raise_if (any (occupies path ignore) document.files)
      (value_error "path already occupied" (path ∷ []))

module _ (document : FileMapDocument) where
  unfoldable pub add_file :
      (file_id path : String) (type : FileType) (updated_at : ℕ) (content_hash : Option String)
      (last_known_revision : Option ℕ)
      → Result FileMapDocument
  unfolding assert_path_available
  add_file file_id path type updated_at content_hash last_known_revision = do
    assert_path_available document path none
    r ← new_file_record (record {
      file_id = file_id;
      path = path;
      type = type;
      status = active;
      updated_at = updated_at;
      content_hash = content_hash;
      last_known_revision = last_known_revision;
      conflict_source_file_id = none;
      meta = none;
    })
    replace_files document (document.files ++ r ∷ []) updated_at

-- The record that `rename_file` puts in the place of one with its `file_id`.
abbrev pub renamed : String → ℕ → FileRecord → FileRecord
renamed new_path updated_at r = record r { path = new_path; updated_at = updated_at }

unfoldable pub rename_loop : String → String → ℕ → List FileRecord → Result (List FileRecord)
rename_loop file_id new_path updated_at [] = ok []
rename_loop file_id new_path updated_at (r ∷ rest) = do
  r' ← if r.file_id == file_id then new_file_record (renamed new_path updated_at r) else ok r
  rest' ← rename_loop file_id new_path updated_at rest
  ok (r' ∷ rest')

abbrev pub has_id : String → FileRecord → Bool
has_id file_id r = r.file_id == file_id

unfoldable pub rename_file : FileMapDocument → String → String → ℕ → Result FileMapDocument
unfolding assert_path_available rename_loop
rename_file document file_id new_path updated_at = do
  assert_path_available document new_path (some file_id)
  updated_files ← rename_loop file_id new_path updated_at document.files
  raise_if (not (any (has_id file_id) document.files))
      (key_error "file_id not found" (file_id ∷ []))
  replace_files document updated_files updated_at

-- The record that a deletion leaves; `conflict_source_file_id` is not carried over.
abbrev pub deleted_record : ℕ → Option ℕ → FileRecord → FileRecord
deleted_record deleted_at deleted_revision r = record r {
  status = deleted;
  updated_at = deleted_at;
  last_known_revision = first_some deleted_revision r.last_known_revision;
  conflict_source_file_id = none;
}

unfoldable pub delete_loop : String → ℕ → Option ℕ → List FileRecord → Result (List FileRecord)
delete_loop file_id deleted_at deleted_revision [] = ok []
delete_loop file_id deleted_at deleted_revision (r ∷ rest) = do
  r' ←
      if r.file_id == file_id
      then new_file_record (deleted_record deleted_at deleted_revision r)
      else ok r
  rest' ← delete_loop file_id deleted_at deleted_revision rest
  ok (r' ∷ rest')

-- `target` after the loop: the last record with the `file_id`.
unfoldable pub last_target : String → List FileRecord → Option FileRecord
last_target file_id [] = none
last_target file_id (r ∷ rest) =
    first_some (last_target file_id rest) (if r.file_id == file_id then some r else none)

unfoldable pub mark_deleted :
    FileMapDocument
    → String
    → (deleted_at local_delete_seq : ℕ) → (deleted_revision : Option ℕ)
    → (deleted_by_device : Option String) → Result (FileMapDocument × TombstoneRecord)
unfolding delete_loop last_target
mark_deleted document file_id deleted_at local_delete_seq deleted_revision deleted_by_device = do
  updated_files ← delete_loop file_id deleted_at deleted_revision document.files
  target ←
      require (last_target file_id document.files) (key_error "file_id not found" (file_id ∷ []))
  tombstone ← new_tombstone_record (record {
    file_id = target.file_id;
    deleted_revision = deleted_revision;
    deleted_at = deleted_at;
    local_delete_seq = local_delete_seq;
    last_known_path = some target.path;
    deleted_by_device = deleted_by_device;
    meta = none;
  })
  updated_document ← replace_files document updated_files deleted_at
  ok (updated_document, tombstone)
