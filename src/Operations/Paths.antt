-- ===== src/Operations/Paths.antt =====
-- operations.py: no edit lets two records that are not deleted share a path.
use mathlib.Core.Path.{subst, sym}
use personal_knowledge_base.Base.{
  ℕ, String, ◌==◌, eq_iff, ◌≡◌, Bool, false, ◌&&◌, not, Option, none, some, List, [], ◌∷◌, arith,
  All, Apart, Apart-snoc, Apart-filter, Apart-imp₂, Apart-map, All-of_any, All-of_forall,
}
use personal_knowledge_base.Base.Exec.{ok}
use personal_knowledge_base.Models.{
  FileType, FileRecord, is_deleted, FileMapDocument, TombstoneRecord,
}
use personal_knowledge_base.Operations.Edits.{occupies, add_file, rename_file, has_id, mark_deleted}
use personal_knowledge_base.Operations.Conflicts.{register_conflict_copy, remove_conflict_copy}
use personal_knowledge_base.Operations.Outcomes.{
  added, copy_record, rename_one, delete_one, add_file_outcome, register_conflict_copy_outcome,
  rename_file_outcome, remove_conflict_copy_outcome, mark_deleted_outcome,
}

-- Two records that are not deleted stand at one path.
abbrev pub path_clash : FileRecord → FileRecord → Bool
path_clash r s = not (is_deleted r.status) && (not (is_deleted s.status) && r.path == s.path)

abbrev pub id_clash : FileRecord → FileRecord → Bool
id_clash r s = r.file_id == s.file_id

abbrev pub HasDistinctPaths : FileMapDocument → Type 0
HasDistinctPaths document = Apart path_clash document.files

abbrev pub HasDistinctIds : FileMapDocument → Type 0
HasDistinctIds document = Apart id_clash document.files

free :
    (r : FileRecord) (xs : List FileRecord)
    → All (λ s. occupies r.path none s ≡ false) xs
    → All (λ s. path_clash s r ≡ false) xs
free r [] h = tt
free r (s ∷ xs) h = (ground (arith, eq_iff s.path r.path), free r xs h.1)

-- A record that moves to a free path clashes with no other file's record.
rename-apart :
    (i p : String) (t : ℕ) (x y : FileRecord)
    → occupies p (some i) x ≡ false
    → occupies p (some i) y ≡ false
    → path_clash x y ≡ false
    → id_clash x y ≡ false
    → path_clash (rename_one i p t x) (rename_one i p t y) ≡ false
unfolding rename_one
rename-apart i p t x y hx hy a b = ground (
  arith,
  eq_iff x.file_id i,
  eq_iff y.file_id i,
  eq_iff x.file_id y.file_id,
  eq_iff x.path p,
  eq_iff p y.path,
  eq_iff y.path p,
)

delete-apart :
    (i : String) (t : ℕ) (v : Option ℕ) (x y : FileRecord)
    → path_clash x y ≡ false
    → path_clash (delete_one i t v x) (delete_one i t v y) ≡ false
unfolding delete_one
delete-apart i t v x y a = ground arith

module _ (document : FileMapDocument) {after : FileMapDocument} where
  -- An addition that succeeds keeps the paths of the live records distinct.
  pub add_file-HasDistinctPaths :
      (file_id path : String) (type : FileType) (updated_at : ℕ) (content_hash : Option String)
      (last_known_revision : Option ℕ)
      → HasDistinctPaths document
      → add_file document file_id path type updated_at content_hash last_known_revision ≡ ok after
      → HasDistinctPaths after
  add_file-HasDistinctPaths i p y t c v h e =
      let (unused, files) = add_file_outcome document i p y t c v e in
      let r = added i p y t c v in
      subst (Apart path_clash) (sym files) (
        Apart-snoc path_clash document.files r h
          (free r document.files (All-of_any (occupies p none) document.files unused)))

  -- So does the registration of a conflict copy that succeeds.
  pub register_conflict_copy-HasDistinctPaths :
      (source_file_id conflict_file_id conflict_path : String) (updated_at : ℕ)
      (content_hash : Option String)
      → HasDistinctPaths document
      → register_conflict_copy document source_file_id conflict_file_id conflict_path updated_at
          content_hash
        ≡ ok after
      → HasDistinctPaths after
  register_conflict_copy-HasDistinctPaths s c p t hash h e =
      let (source, _, unused, files) = register_conflict_copy_outcome document s c p t hash e in
      let r = copy_record s c p source.type t hash in
      subst (Apart path_clash) (sym files) (
        Apart-snoc path_clash document.files r h
          (free r document.files (All-of_any (occupies p none) document.files unused)))

  -- A rename that succeeds keeps them distinct, where no two records have one `file_id`.
  pub rename_file-HasDistinctPaths :
      (file_id new_path : String) (updated_at : ℕ)
      → HasDistinctIds document
      → HasDistinctPaths document
      → rename_file document file_id new_path updated_at ≡ ok after
      → HasDistinctPaths after
  rename_file-HasDistinctPaths i p t ids h e =
      let (unused, _, files) = rename_file_outcome document i p t e in
      subst (Apart path_clash) (sym files) (
        Apart-map path_clash (rename_one i p t) document.files (
          Apart-imp₂ (λ x. occupies p (some i) x ≡ false) path_clash id_clash _ (rename-apart i p t)
            document.files (All-of_any (occupies p (some i)) document.files unused) h ids))

  -- So does the removal of a conflict copy.
  pub remove_conflict_copy-HasDistinctPaths :
      (file_id : String) (updated_at : ℕ)
      → HasDistinctPaths document
      → remove_conflict_copy document file_id updated_at ≡ ok after
      → HasDistinctPaths after
  remove_conflict_copy-HasDistinctPaths i t h e =
      subst (Apart path_clash) (sym (remove_conflict_copy_outcome document i t e))
        (Apart-filter path_clash (λ r. not (has_id i r)) document.files h)

  -- So does a deletion.
  pub mark_deleted-HasDistinctPaths :
      (file_id : String) (deleted_at seq : ℕ) (revision : Option ℕ) (device : Option String)
      {tombstone : TombstoneRecord}
      → HasDistinctPaths document
      → mark_deleted document file_id deleted_at seq revision device ≡ ok (after, tombstone)
      → HasDistinctPaths after
  mark_deleted-HasDistinctPaths i t seq v device h e =
      let (_, _, files, _) = mark_deleted_outcome document i t seq v device e in
      subst (Apart path_clash) (sym files) (
        Apart-map path_clash (delete_one i t v) document.files (
          Apart-imp₂ (λ x. Unit {0}) path_clash path_clash _
            (λ x y _ _ a _. delete-apart i t v x y a) document.files
            (All-of_forall (λ x. Unit {0}) (λ x. tt) document.files) h h))
