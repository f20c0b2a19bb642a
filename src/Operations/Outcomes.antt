-- ===== src/Operations/Outcomes.antt =====
-- operations.py: the files of the document that a successful edit returns.
use personal_knowledge_base.Base.{
  ℕ, String, ◌≡◌, true, false, ◌&&◌, not, Option, none, some, List, [], ◌∷◌, ◌++◌, map, any, filter,
  arith, if◌then◌else◌, Bool-cases, inl, inr, find, Option-cases, ◌∙◌,
}
use personal_knowledge_base.Base.Exec.{ok, >>=_inv, raise_if, require}
use personal_knowledge_base.Models.{
  FileType, FileRecord, active, conflict_copy, is_conflict_copy, new_file_record, FileMapDocument,
  replace_files, TombstoneRecord, new_tombstone_record,
}
use personal_knowledge_base.Operations.Edits.{
  occupies, assert_path_available, add_file, renamed, rename_loop, has_id, rename_file,
  deleted_record, delete_loop, mark_deleted, last_target,
}
use personal_knowledge_base.Operations.Conflicts.{
  register_conflict_copy, remove_loop, remove_conflict_copy,
}

new_file_record-eq : (r s : FileRecord) → new_file_record r ≡ ok s → s ≡ r
unfolding new_file_record
new_file_record-eq r s e = ground arith

new_tombstone_record-eq : (r s : TombstoneRecord) → new_tombstone_record r ≡ ok s → s ≡ r
unfolding new_tombstone_record
new_tombstone_record-eq r s e = ground arith

abbrev pub tombstone_of : FileRecord → ℕ → ℕ → Option ℕ → Option String → TombstoneRecord
tombstone_of target deleted_at seq revision device = record {
  file_id = target.file_id;
  deleted_revision = revision;
  deleted_at = deleted_at;
  local_delete_seq = seq;
  last_known_path = some target.path;
  deleted_by_device = device;
  meta = none;
}

files-replace :
    (document after : FileMapDocument) (files : List FileRecord) (t : ℕ)
    → replace_files document files t ≡ ok after
    → after.files ≡ files
unfolding replace_files
files-replace document after files t e = ground arith

abbrev pub added :
    (file_id path : String) (type : FileType) (updated_at : ℕ) (content_hash : Option String)
    (last_known_revision : Option ℕ)
    → FileRecord
added file_id path type updated_at content_hash last_known_revision = record {
  file_id = file_id;
  path = path;
  type = type;
  status = active;
  updated_at = updated_at;
  content_hash = content_hash;
  last_known_revision = last_known_revision;
  conflict_source_file_id = none;
  meta = none;
}

module _ (document : FileMapDocument) {after : FileMapDocument} where
  pub add_file_outcome :
      (file_id path : String) (type : FileType) (updated_at : ℕ) (content_hash : Option String)
      (last_known_revision : Option ℕ)
      → add_file document file_id path type updated_at content_hash last_known_revision ≡ ok after
      → (any (occupies path none) document.files ≡ false)
        × (after.files
            ≡ document.files
              ++ added file_id path type updated_at content_hash last_known_revision ∷ [])
  unfolding add_file new_file_record replace_files
  add_file_outcome file_id path type updated_at content_hash last_known_revision e = ground arith

abbrev pub copy_record :
    (source conflict_file_id path : String) (type : FileType) (updated_at : ℕ)
    (content_hash : Option String)
    → FileRecord
copy_record source conflict_file_id path type updated_at content_hash = record {
  file_id = conflict_file_id;
  path = path;
  type = type;
  status = conflict_copy;
  updated_at = updated_at;
  content_hash = content_hash;
  last_known_revision = none;
  conflict_source_file_id = some source;
  meta = none;
}

module _ (document : FileMapDocument) {after : FileMapDocument} where
  pub register_conflict_copy_outcome :
      (source_file_id conflict_file_id conflict_path : String) (updated_at : ℕ)
      (content_hash : Option String)
      → register_conflict_copy document source_file_id conflict_file_id conflict_path updated_at
          content_hash
        ≡ ok after
      → (source : FileRecord) × (find (has_id source_file_id) document.files ≡ some source)
        × (any (occupies conflict_path none) document.files ≡ false)
        × (after.files
            ≡ document.files
              ++ copy_record source_file_id conflict_file_id conflict_path source.type updated_at
                  content_hash
                ∷ [])
  unfolding register_conflict_copy new_file_record replace_files
  register_conflict_copy_outcome s c p t h e =
      elim (Option-cases (find (has_id s) document.files)) [
        | inl missing ↦ absurd (ground (arith, missing))
        | inr (source, found) ↦ (source, found, ground arith, ground arith)
      ]

unfoldable pub rename_one : String → String → ℕ → FileRecord → FileRecord
rename_one file_id new_path updated_at r =
    if has_id file_id r then renamed new_path updated_at r else r

rename_step :
    (file_id new_path : String) (updated_at : ℕ) (x y : FileRecord)
    → (if has_id file_id x then new_file_record (renamed new_path updated_at x) else ok x) ≡ ok y
    → y ≡ rename_one file_id new_path updated_at x
unfolding rename_one
rename_step i p t x y e = elim (Bool-cases (has_id i x)) [
  | inl same ↦ rw same (new_file_record-eq (renamed p t x) y (rw same at e))
  | inr other ↦ rw other (ground arith)
]

rename_loop-eq :
    (file_id new_path : String) (updated_at : ℕ) (xs ys : List FileRecord)
    → rename_loop file_id new_path updated_at xs ≡ ok ys
    → ys ≡ map (rename_one file_id new_path updated_at) xs
unfolding rename_loop
rename_loop-eq i p t [] ys e = ground arith
rename_loop-eq i p t (x ∷ xs) ys e =
    let (x', first, after) =
      >>=_inv (if has_id i x then new_file_record (renamed p t x) else ok x) _ e in
    let (rest, more, end) = >>=_inv (rename_loop i p t xs) _ after in
    cc (rename_step i p t x x' first, rename_loop-eq i p t xs rest more)

unfoldable pub delete_one : String → ℕ → Option ℕ → FileRecord → FileRecord
delete_one file_id deleted_at revision r =
    if has_id file_id r then deleted_record deleted_at revision r else r

delete_step :
    (file_id : String) (deleted_at : ℕ) (revision : Option ℕ) (x y : FileRecord)
    → (if has_id file_id x then new_file_record (deleted_record deleted_at revision x) else ok x)
      ≡ ok y
    → y ≡ delete_one file_id deleted_at revision x
unfolding delete_one
delete_step i t v x y e = elim (Bool-cases (has_id i x)) [
  | inl same ↦ rw same (new_file_record-eq (deleted_record t v x) y (rw same at e))
  | inr other ↦ rw other (ground arith)
]

delete_loop-eq :
    (file_id : String) (deleted_at : ℕ) (revision : Option ℕ) (xs ys : List FileRecord)
    → delete_loop file_id deleted_at revision xs ≡ ok ys
    → ys ≡ map (delete_one file_id deleted_at revision) xs
unfolding delete_loop
delete_loop-eq i t v [] ys e = ground arith
delete_loop-eq i t v (x ∷ xs) ys e =
    let (x', first, after) =
      >>=_inv (if has_id i x then new_file_record (deleted_record t v x) else ok x) _ e in
    let (rest, more, end) = >>=_inv (delete_loop i t v xs) _ after in
    cc (delete_step i t v x x' first, delete_loop-eq i t v xs rest more)

remove_loop-eq :
    (file_id : String) (xs ys : List FileRecord)
    → remove_loop file_id xs ≡ ok ys
    → ys ≡ filter (λ r. not (has_id file_id r)) xs
unfolding remove_loop
remove_loop-eq i [] ys e = ground arith
remove_loop-eq i (x ∷ xs) ys e =
    let (_, first, after) =
      >>=_inv (raise_if (has_id i x && not (is_conflict_copy x.status)) _) _ e in
    let (rest, more, end) = >>=_inv (remove_loop i xs) _ after in
    ground (arith, remove_loop-eq i xs rest more)

module _ (document : FileMapDocument) {after : FileMapDocument} where
  pub rename_file_outcome :
      (file_id new_path : String) (updated_at : ℕ)
      → rename_file document file_id new_path updated_at ≡ ok after
      → (any (occupies new_path (some file_id)) document.files ≡ false)
        × (any (has_id file_id) document.files ≡ true)
        × (after.files ≡ map (rename_one file_id new_path updated_at) document.files)
  unfolding rename_file
  rename_file_outcome i p t e =
      let (_, unused, e₁) = >>=_inv (assert_path_available document p (some i)) _ e in
      let (files, loop, e₂) = >>=_inv (rename_loop i p t document.files) _ e₁ in
      let (_, found, e₃) = >>=_inv (raise_if (not (any (has_id i) document.files)) _) _ e₂ in
      (
        ground arith,
        ground arith,
        files-replace document after files t e₃ ∙ rename_loop-eq i p t document.files files loop,
      )

  pub remove_conflict_copy_outcome :
      (file_id : String) (updated_at : ℕ)
      → remove_conflict_copy document file_id updated_at ≡ ok after
      → after.files ≡ filter (λ r. not (has_id file_id r)) document.files
  unfolding remove_conflict_copy
  remove_conflict_copy_outcome i t e =
      let (files, loop, e₂) = >>=_inv (remove_loop i document.files) _ e in
      let (_, found, e₃) = >>=_inv (raise_if (not (any (has_id i) document.files)) _) _ e₂ in
      files-replace document after files t e₃ ∙ remove_loop-eq i document.files files loop

  pub mark_deleted_outcome :
      (file_id : String) (deleted_at seq : ℕ) (revision : Option ℕ) (device : Option String)
      {tombstone : TombstoneRecord}
      → mark_deleted document file_id deleted_at seq revision device ≡ ok (after, tombstone)
      → (target : FileRecord) × (last_target file_id document.files ≡ some target)
        × (after.files ≡ map (delete_one file_id deleted_at revision) document.files)
        × (tombstone ≡ tombstone_of target deleted_at seq revision device)
  unfolding mark_deleted
  mark_deleted_outcome i t seq v device {tombstone = tombstone} e =
      let (files, loop, e₁) = >>=_inv (delete_loop i t v document.files) _ e in
      let (target, found, e₂) = >>=_inv (require (last_target i document.files) _) _ e₁ in
      let (stone, made, e₃) =
        >>=_inv (new_tombstone_record (tombstone_of target t seq v device)) _ e₂ in
      let (updated, done, e₄) = >>=_inv (replace_files document files t) _ e₃ in
      let same : (updated ≡ after) × (stone ≡ tombstone) = (cc e₄, cc e₄) in
      (
        target,
        ground arith,
        cc (
          same.0,
          files-replace document updated files t done,
          delete_loop-eq i t v document.files files loop,
        ),
        cc (same.1, new_tombstone_record-eq (tombstone_of target t seq v device) stone made),
      )
