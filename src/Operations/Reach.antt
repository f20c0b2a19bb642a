-- ===== src/Operations/Reach.antt =====
-- operations.py: every sequence of edits keeps the file map well-formed; when an addition succeeds.
use mathlib.Core.Path.{subst}
use personal_knowledge_base.Base.{
  ℕ, String, eq_iff, ◌≡◌, sym, false, not, Option, none, List, [], ◌∷◌, ◌++◌, map, arith, All,
  All-Has, Has, refl, ap, ◌∙◌, ◌==◌, Bool-cases, inl, inr, Apart, Apart-snoc, Apart-filter,
  Apart-map, Apart-imp₂, All-of_any, All-of_forall, any, ◌↔◌, ◌≢◌,
}
use personal_knowledge_base.Base.Exec.{ok}
use personal_knowledge_base.Models.{
  FileType, FileStatus, active, deleted, conflict_copy, is_deleted, FileRecord, FileMapDocument,
  TombstoneRecord, new_file_map_document, new_file_record, replace_files,
}
use personal_knowledge_base.Operations.Edits.{add_file, rename_file, has_id, mark_deleted, occupies}
use personal_knowledge_base.Operations.Conflicts.{register_conflict_copy, remove_conflict_copy}
use personal_knowledge_base.Operations.Outcomes.{
  added, copy_record, rename_one, delete_one, add_file_outcome, register_conflict_copy_outcome,
  rename_file_outcome, remove_conflict_copy_outcome, mark_deleted_outcome,
}
use personal_knowledge_base.Operations.Paths.{
  HasDistinctPaths, HasDistinctIds, id_clash, add_file-HasDistinctPaths,
  register_conflict_copy-HasDistinctPaths, rename_file-HasDistinctPaths,
  remove_conflict_copy-HasDistinctPaths, mark_deleted-HasDistinctPaths,
}

-- An edit that succeeds. The caller makes a new `file_id` for a record that is added.
pub data Edit (document after : FileMapDocument) : Type 0 where
  adds :
      (file_id path : String) (type : FileType) (updated_at : ℕ) (content_hash : Option String)
      (last_known_revision : Option ℕ)
      → any (has_id file_id) document.files ≡ false
      → add_file document file_id path type updated_at content_hash last_known_revision ≡ ok after
      → Edit document after
  copies :
      (source_file_id conflict_file_id conflict_path : String) (updated_at : ℕ)
      (content_hash : Option String)
      → any (has_id conflict_file_id) document.files ≡ false
      → register_conflict_copy document source_file_id conflict_file_id conflict_path updated_at
          content_hash
        ≡ ok after
      → Edit document after
  renames :
      (file_id new_path : String) (updated_at : ℕ)
      → rename_file document file_id new_path updated_at ≡ ok after
      → Edit document after
  removes :
      (file_id : String) (updated_at : ℕ)
      → remove_conflict_copy document file_id updated_at ≡ ok after
      → Edit document after
  deletes :
      (file_id : String) (deleted_at seq : ℕ) (revision : Option ℕ) (device : Option String)
      (tombstone : TombstoneRecord)
      → mark_deleted document file_id deleted_at seq revision device ≡ ok (after, tombstone)
      → Edit document after

pub data Edits (document : FileMapDocument) : FileMapDocument → Type 0 where
  here : Edits document document
  next : {d e : FileMapDocument} → Edits document d → Edit d e → Edits document e

pub record IsWellFormed (document : FileMapDocument) : Type 0 where
  pub ids : HasDistinctIds document
  pub paths : HasDistinctPaths document

other_ids :
    (r : FileRecord) (xs : List FileRecord)
    → any (has_id r.file_id) xs ≡ false
    → All (λ x. id_clash x r ≡ false) xs
other_ids r xs h = All-of_any (has_id r.file_id) xs h

rename-id :
    (i p : String) (t : ℕ) (x y : FileRecord)
    → id_clash x y ≡ false
    → id_clash (rename_one i p t x) (rename_one i p t y) ≡ false
unfolding rename_one
rename-id i p t x y h = ground arith

delete-id :
    (i : String) (t : ℕ) (v : Option ℕ) (x y : FileRecord)
    → id_clash x y ≡ false
    → id_clash (delete_one i t v x) (delete_one i t v y) ≡ false
unfolding delete_one
delete-id i t v x y h = ground arith

-- A change that keeps each `file_id` keeps them distinct.
map-ids :
    (f : FileRecord → FileRecord)
    → ((x y : FileRecord) → id_clash x y ≡ false → id_clash (f x) (f y) ≡ false)
    → (xs : List FileRecord) → Apart id_clash xs
    → Apart id_clash (map f xs)
map-ids f keeps xs h = Apart-map id_clash f xs (
    Apart-imp₂ (λ x. Unit {0}) id_clash id_clash _ (λ x y _ _ a _. keeps x y a) xs
      (All-of_forall (λ x. Unit {0}) (λ x. tt) xs) h h)

Edit-HasDistinctIds :
    (d : FileMapDocument) {e : FileMapDocument} → HasDistinctIds d → Edit d e → HasDistinctIds e
Edit-HasDistinctIds d h (adds i p y t c v new done) =
    subst (Apart id_clash) (sym ((add_file_outcome d i p y t c v done).1)) (
      Apart-snoc id_clash d.files (added i p y t c v) h (other_ids (added i p y t c v) d.files new))
Edit-HasDistinctIds d h (copies s c p t hash new done) =
    let (source, _, _, files) = register_conflict_copy_outcome d s c p t hash done in
    subst (Apart id_clash) (sym files) (
      Apart-snoc id_clash d.files (copy_record s c p source.type t hash) h
        (other_ids (copy_record s c p source.type t hash) d.files new))
Edit-HasDistinctIds d h (renames i p t done) =
    subst (Apart id_clash) (sym ((rename_file_outcome d i p t done).2))
      (map-ids (rename_one i p t) (rename-id i p t) d.files h)
Edit-HasDistinctIds d h (removes i t done) =
    subst (Apart id_clash) (sym (remove_conflict_copy_outcome d i t done))
      (Apart-filter id_clash (λ r. not (has_id i r)) d.files h)
Edit-HasDistinctIds d h (deletes i t seq v device stone done) =
    subst (Apart id_clash) (sym ((mark_deleted_outcome d i t seq v device done).2))
      (map-ids (delete_one i t v) (delete-id i t v) d.files h)

Edit-IsWellFormed :
    (d : FileMapDocument) {e : FileMapDocument} → IsWellFormed d → Edit d e → IsWellFormed e
Edit-IsWellFormed d w (adds i p y t c v new done) = record {
  ids = Edit-HasDistinctIds d w.ids (adds i p y t c v new done);
  paths = add_file-HasDistinctPaths d i p y t c v w.paths done;
}
Edit-IsWellFormed d w (copies s c p t hash new done) = record {
  ids = Edit-HasDistinctIds d w.ids (copies s c p t hash new done);
  paths = register_conflict_copy-HasDistinctPaths d s c p t hash w.paths done;
}
Edit-IsWellFormed d w (renames i p t done) = record {
  ids = Edit-HasDistinctIds d w.ids (renames i p t done);
  paths = rename_file-HasDistinctPaths d i p t w.ids w.paths done;
}
Edit-IsWellFormed d w (removes i t done) = record {
  ids = Edit-HasDistinctIds d w.ids (removes i t done);
  paths = remove_conflict_copy-HasDistinctPaths d i t w.paths done;
}
Edit-IsWellFormed d w (deletes i t seq v device stone done) = record {
  ids = Edit-HasDistinctIds d w.ids (deletes i t seq v device stone done);
  paths = mark_deleted-HasDistinctPaths d i t seq v device w.paths done;
}

-- From a file map in which no two records have one `file_id` and no two records that are not deleted
-- have one path, every sequence of successful edits leads to such a file map again, if each record
-- that is added or registered gets a `file_id` that the map does not hold.
pub Edits-IsWellFormed : {d e : FileMapDocument} → IsWellFormed d → Edits d e → IsWellFormed e
Edits-IsWellFormed w here = w
Edits-IsWellFormed w (next {d = d} r step) = Edit-IsWellFormed d (Edits-IsWellFormed w r) step

not_at :
    (path : String) (r : FileRecord)
    → (occupies path none r ≡ false) ↔ (r.status ≢ deleted → r.path ≢ path)
not_at path r = (
  λ free live at. absurd (
      let alive = not_deleted r.status live in
      let stands = (eq_iff r.path path).1 at in let clash = rw (alive, stands) at free in cc),
  λ free. elim (Bool-cases (is_deleted r.status)) [
    | inl gone ↦ rw gone refl
    | inr alive ↦ elim (Bool-cases (r.path == path)) [
      | inl stands ↦ absurd (
          free (λ e. absurd (let clash = sym alive ∙ ap is_deleted e in cc))
            ((eq_iff r.path path).0 stands))
      | inr away ↦ rw (alive, away) refl
    ]
  ],
)
  where
    not_deleted : (status : FileStatus) → status ≢ deleted → is_deleted status ≡ false
    not_deleted deleted live = absurd (live refl)
    not_deleted active live = refl
    not_deleted conflict_copy live = refl

-- No record that is not deleted stands at the path.
free_iff :
    (path : String) (rs : List FileRecord)
    → (any (occupies path none) rs ≡ false)
      ↔ ((r : FileRecord) → Has r rs → r.status ≢ deleted → r.path ≢ path)
free_iff path rs = (
  λ e r h.
      (not_at path r).0
        (All-Has (λ x. occupies path none x ≡ false) r rs (All-of_any (occupies path none) rs e) h),
  λ h. none_at rs (λ r has. (not_at path r).1 (h r has)),
)
  where
    none_at :
        (xs : List FileRecord)
        → ((r : FileRecord) → Has r xs → occupies path none r ≡ false)
        → any (occupies path none) xs ≡ false
    none_at [] h = refl
    none_at (x ∷ xs) h = rw (h x (inl refl)) (none_at xs (λ r later. h r (inr later)))

-- In a document that passes its own checks an addition succeeds exactly if the `file_id` and the path
-- are not empty and no record that is not deleted stands at the path.
pub add_file_iff :
    (document : FileMapDocument) (file_id path : String) (type : FileType) (updated_at : ℕ)
    (content_hash : Option String) (last_known_revision : Option ℕ)
    → new_file_map_document document ≡ ok document
    → ((after : FileMapDocument) × (add_file document file_id path type updated_at content_hash
            last_known_revision
          ≡ ok after))
      ↔ ((file_id ≢ "")
          × (path ≢ "")
          × ((r : FileRecord) → Has r document.files → r.status ≢ deleted → r.path ≢ path))
unfolding add_file new_file_record replace_files
add_file_iff d i p y t c v checked = (
  λ made. (let (hi, hp, free) = there made in (hi, hp, (free_iff p d.files).0 free)),
  λ (hi, hp, free). back (hi, hp, (free_iff p d.files).1 free),
)
  where
    there :
        (after : FileMapDocument) × (add_file d i p y t c v ≡ ok after)
        → (i ≢ "") × (p ≢ "") × (any (occupies p none) d.files ≡ false)
    there (after, e) = (
      λ q. absurd (ground (arith, (eq_iff i "").1 q)),
      λ q. absurd (ground (arith, (eq_iff p "").1 q)),
      ground arith,
    )

    back :
        (i ≢ "") × (p ≢ "") × (any (occupies p none) d.files ≡ false)
        → (after : FileMapDocument) × (add_file d i p y t c v ≡ ok after)
    back (hi, hp, free) = (
      record d { files = d.files ++ added i p y t c v ∷ []; updated_at = t },
      ground (arith, eq_iff i "", eq_iff p "", hi, hp),
    )
