-- ===== src/Operations/Conflicts.antt =====
-- operations.py: conflict copies, which are registered beside their source and removed again.
use personal_knowledge_base.Base.{
  ℕ, String, ◌&&◌, not, Option, none, List, [], ◌∷◌, ◌++◌, any, find, if◌then◌else◌,
}
use personal_knowledge_base.Base.Exec.{
  Result, ok, value_error, key_error, raise_if, require, ◌>>=◌, ◌>>◌,
}
use personal_knowledge_base.Models.{
  conflict_copy, is_conflict_copy, FileRecord, new_file_record, FileMapDocument, replace_files,
}
use personal_knowledge_base.Operations.Edits.{assert_path_available, has_id}

unfoldable pub register_conflict_copy :
    FileMapDocument
    → (source_file_id conflict_file_id conflict_path : String) → (updated_at : ℕ)
    → (content_hash : Option String) → Result FileMapDocument
unfolding assert_path_available
register_conflict_copy document source_file_id conflict_file_id conflict_path updated_at
      content_hash =
    do
      source_record ←
          require (find (has_id source_file_id) document.files)
            (key_error "source file_id not found" (source_file_id ∷ []))
      assert_path_available document conflict_path none
      r ← new_file_record (record {
        file_id = conflict_file_id;
        path = conflict_path;
        type = source_record.type;
        status = conflict_copy;
        updated_at = updated_at;
        content_hash = content_hash;
        last_known_revision = none;
        conflict_source_file_id = Option.some source_file_id;
        meta = none;
      })
      replace_files document (document.files ++ r ∷ []) updated_at

-- A record with the `file_id` is dropped, and must be a conflict copy.
unfoldable pub remove_loop : String → List FileRecord → Result (List FileRecord)
remove_loop file_id [] = ok []
remove_loop file_id (r ∷ rest) = do
  raise_if (has_id file_id r && not (is_conflict_copy r.status))
      (value_error "file_id is not a conflict_copy" (file_id ∷ []))
  rest' ← remove_loop file_id rest
  ok (if has_id file_id r then rest' else r ∷ rest')

unfoldable pub remove_conflict_copy : FileMapDocument → String → ℕ → Result FileMapDocument
unfolding remove_loop
remove_conflict_copy document file_id updated_at = do
  updated_files ← remove_loop file_id document.files
  raise_if (not (any (has_id file_id) document.files))
      (key_error "conflict file_id not found" (file_id ∷ []))
  replace_files document updated_files updated_at
