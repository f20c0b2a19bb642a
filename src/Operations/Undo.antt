-- ===== src/Operations/Undo.antt =====
-- operations.py: what an edit leaves alone, and the edit that takes another one back.
use mathlib.Core.Option
use mathlib.Core.Path.{subst}
use personal_knowledge_base.Base.{
  ℕ, String, ◌==◌, eq_iff, ◌≡◌, refl, sym, ap, ◌∙◌, Bool, true, false, ◌&&◌, not, Option, some,
  List, [], ◌∷◌, ◌++◌, map, arith, All, All-of_any, if◌then◌else◌, any, find, filter, inl, inr,
  Option-cases, Has,
}
use personal_knowledge_base.Base.Exec.{ok}
use personal_knowledge_base.Models.{
  FileRecord, is_deleted, FileMapDocument, TombstoneRecord, replace_files, is_conflict_copy,
  new_file_record,
}
use personal_knowledge_base.Operations.Edits.{
  rename_file, has_id, mark_deleted, last_target, renamed,
}
use personal_knowledge_base.Operations.Conflicts.{
  register_conflict_copy, remove_loop, remove_conflict_copy,
}
use personal_knowledge_base.Operations.Outcomes.{
  copy_record, rename_one, delete_one, register_conflict_copy_outcome, rename_file_outcome,
  mark_deleted_outcome,
}

-- The loop drops the copy at the end and nothing else.
remove_loop-snoc :
    (i : String) (xs : List FileRecord) (r : FileRecord)
    → All (λ x. has_id i x ≡ false) xs
    → has_id i r ≡ true
    → is_conflict_copy r.status ≡ true
    → remove_loop i (xs ++ r ∷ []) ≡ ok xs
unfolding remove_loop
remove_loop-snoc i [] r h e c = rw (e, c)
remove_loop-snoc i (x ∷ xs) r h e c = rw (h.0, remove_loop-snoc i xs r h.1 e c)

any-snoc :
    (p : FileRecord → Bool) (xs : List FileRecord) (r : FileRecord)
    → p r ≡ true
    → any p (xs ++ r ∷ []) ≡ true
any-snoc p [] r e = ground arith
any-snoc p (x ∷ xs) r e = ground (arith, any-snoc p xs r e)

find-map_rename :
    (i p : String) (t : ℕ) (j : String) (xs : List FileRecord)
    → find (has_id j) (map (rename_one i p t) xs)
      ≡ (if j == i then Option.map (renamed p t) (find (has_id i) xs) else find (has_id j) xs)
unfolding rename_one
find-map_rename i p t j [] = ground arith
find-map_rename i p t j (x ∷ xs) =
    ground (arith, eq_iff x.file_id i, eq_iff x.file_id j, eq_iff j i, find-map_rename i p t j xs)

last_target-Has :
    (i : String) (xs : List FileRecord) (r : FileRecord)
    → last_target i xs ≡ some r
    → Has r xs × (r.file_id ≡ i)
unfolding last_target
last_target-Has i [] r e = cc
last_target-Has i (x ∷ xs) r e = elim (Option-cases (last_target i xs)) [
  | inl no_later ↦ here (ground (arith, no_later))
  | inr (later, q) ↦
      let (there, same) = last_target-Has i xs later q in
      let e' : later ≡ r = ground arith in (inr (subst (λ y. Has y xs) e' there), cc)
]
  where
    here : ((has_id i x) ≡ true) × (x ≡ r) → Has r (x ∷ xs) × (r.file_id ≡ i)
    here (h, q) = (inl (sym q), cc (q, (eq_iff x.file_id i).0 h))

deleted_not_live :
    (i : String) (t : ℕ) (v : Option ℕ) (xs : List FileRecord)
    → All (λ r. (has_id i r && not (is_deleted r.status)) ≡ false) (map (delete_one i t v) xs)
unfolding delete_one
deleted_not_live i t v [] = tt
deleted_not_live i t v (x ∷ xs) = (ground arith, deleted_not_live i t v xs)

filter-map_delete :
    (i : String) (t : ℕ) (v : Option ℕ) (xs : List FileRecord)
    → filter (λ r. not (has_id i r)) (map (delete_one i t v) xs) ≡ filter (λ r. not (has_id i r)) xs
unfolding delete_one
filter-map_delete i t v [] = refl
filter-map_delete i t v (x ∷ xs) = ground (arith, filter-map_delete i t v xs)

module _ (document : FileMapDocument) {after : FileMapDocument} where
  -- The document's other fields after a registration, and the checks that it has passed.
  register-fields :
      (s c p : String) (t : ℕ) (hash : Option String)
      → register_conflict_copy document s c p t hash ≡ ok after
      → (after ≡ record document { updated_at = t; files = after.files })
        × ((t' : ℕ)
            → replace_files after document.files t' ≡ ok (record document { updated_at = t' }))
  unfolding register_conflict_copy new_file_record replace_files
  register-fields s c p t hash e = elim (Option-cases (find (has_id s) document.files)) [
    | inl missing ↦ absurd (ground (arith, missing))
    | inr (source, found) ↦ (ground arith, λ t'. ground arith)
  ]

  -- Removing a conflict copy that was just registered under a new `file_id` gives the files back.
  pub remove-register :
      (source_file_id conflict_file_id conflict_path : String) (updated_at removed_at : ℕ)
      (content_hash : Option String)
      → any (has_id conflict_file_id) document.files ≡ false
      → register_conflict_copy document source_file_id conflict_file_id conflict_path updated_at
          content_hash
        ≡ ok after
      → remove_conflict_copy after conflict_file_id removed_at
        ≡ ok (record document { updated_at = removed_at })
  unfolding remove_conflict_copy replace_files
  remove-register s c p t t' hash new e =
      let (source, _, _, files) = register_conflict_copy_outcome document s c p t hash e in
      let r = copy_record s c p source.type t hash in
      let same : has_id c r ≡ true = (eq_iff c c).1 refl in
      rw
        (
          files,
          remove_loop-snoc c document.files r (All-of_any (has_id c) document.files new) same refl,
          any-snoc (has_id c) document.files r same,
        )
        ((register-fields s c p t hash e).1 t')

  -- A rename that succeeds changes the path and the time of the records with the `file_id`, and
  -- a lookup by any other `file_id` finds what it found before.
  find-rename :
      (file_id new_path : String) (updated_at : ℕ) (other : String)
      → rename_file document file_id new_path updated_at ≡ ok after
      → find (has_id other) after.files ≡ (
          if other == file_id
          then Option.map (renamed new_path updated_at) (find (has_id file_id) document.files)
          else find (has_id other) document.files)
  find-rename i p t j e =
      rw ((rename_file_outcome document i p t e).2) (find-map_rename i p t j document.files)

  -- After a deletion that succeeds no record with the `file_id` is live, and every other record
  -- stands as before; the tombstone carries the `file_id` and the path of a record that had it.
  pub mark_deleted_effect :
      (file_id : String) (deleted_at seq : ℕ) (revision : Option ℕ) (device : Option String)
      {tombstone : TombstoneRecord}
      → mark_deleted document file_id deleted_at seq revision device ≡ ok (after, tombstone)
      → All (λ r. (has_id file_id r && not (is_deleted r.status)) ≡ false) after.files
        × (filter (λ r. not (has_id file_id r)) after.files
            ≡ filter (λ r. not (has_id file_id r)) document.files)
        × (tombstone.file_id ≡ file_id)
        × ((r : FileRecord) × Has r document.files
            × (r.file_id ≡ file_id)
            × (tombstone.last_known_path ≡ some r.path))
  mark_deleted_effect i t seq v device e =
      let (target, found, files, stone) = mark_deleted_outcome document i t seq v device e in
      let (there, same) = last_target-Has i document.files target found in
      (
        rw files (deleted_not_live i t v document.files),
        rw files (filter-map_delete i t v document.files),
        ap (λ (s : TombstoneRecord). s.file_id) stone ∙ same,
        (target, there, same, ap (λ (s : TombstoneRecord). s.last_known_path) stone),
      )
