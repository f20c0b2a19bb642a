-- ===== src/Operations/Tests.antt =====
-- operations.py on a small file map.
use personal_knowledge_base.Base.{
  ℕ, String, ◌≡◌, refl, false, not, ◌&&◌, none, some, List, [], ◌∷◌, All, Has, filter, ◌≢◌, ◌↔◌,
}
use personal_knowledge_base.Base.Exec.{ok, raise, value_error, key_error}
use personal_knowledge_base.Models.{
  note, FileRecord, active, deleted, conflict_copy, is_deleted, FileMapDocument, TombstoneRecord,
  new_file_map_document, new_file_record, new_tombstone_record, replace_files,
}
use personal_knowledge_base.Operations.Edits.{add_file, rename_file, has_id, mark_deleted}
use personal_knowledge_base.Operations.Conflicts.{register_conflict_copy, remove_conflict_copy}
use personal_knowledge_base.Operations.Undo.{remove-register, mark_deleted_effect}
use personal_knowledge_base.Operations.Reach.{
  adds, renames, Edits, here, next, IsWellFormed, Edits-IsWellFormed, add_file_iff,
}

abbrev file : String → String → ℕ → FileRecord
file file_id path at = record {
  file_id = file_id;
  path = path;
  type = note;
  status = active;
  updated_at = at;
  content_hash = some "sha256:1";
  last_known_revision = none;
  conflict_source_file_id = none;
  meta = none;
}

abbrev map_of : List FileRecord → ℕ → FileMapDocument
map_of files at = record {
  vault_id = "v";
  updated_at = at;
  files = files;
  schema_version = "v1";
  meta = none;
}

abbrev one : FileMapDocument
one = map_of (file "a" "Notes/a.md" 1 ∷ []) 1

abbrev two : FileMapDocument
two = map_of (file "a" "Notes/a.md" 1 ∷ file "b" "Notes/b.md" 2 ∷ []) 2

abbrev moved : FileMapDocument
moved = map_of (file "a" "Notes/c.md" 3 ∷ file "b" "Notes/b.md" 2 ∷ []) 3

abbrev copy : FileRecord
copy = record {
  file_id = "x";
  path = "Notes/a (conflict).md";
  type = note;
  status = conflict_copy;
  updated_at = 4;
  content_hash = some "sha256:2";
  last_known_revision = none;
  conflict_source_file_id = some "a";
  meta = none;
}

abbrev copied : FileMapDocument
copied = map_of (file "a" "Notes/a.md" 1 ∷ file "b" "Notes/b.md" 2 ∷ copy ∷ []) 4

add-one : add_file (map_of [] 0) "a" "Notes/a.md" note 1 (some "sha256:1") none ≡ ok one
unfolding add_file new_file_record replace_files
add-one = refl

add-two : add_file one "b" "Notes/b.md" note 2 (some "sha256:1") none ≡ ok two
unfolding add_file new_file_record replace_files
add-two = refl

add_taken :
    add_file one "b" "Notes/a.md" note 2 none none
    ≡ raise (value_error "path already occupied" ("Notes/a.md" ∷ []))
unfolding add_file
add_taken = refl

rename-moved : rename_file two "a" "Notes/c.md" 3 ≡ ok moved
unfolding rename_file new_file_record replace_files
rename-moved = refl

rename_missing :
    rename_file two "z" "Notes/c.md" 3 ≡ raise (key_error "file_id not found" ("z" ∷ []))
unfolding rename_file
rename_missing = refl

register-copied :
    register_conflict_copy two "a" "x" "Notes/a (conflict).md" 4 (some "sha256:2") ≡ ok copied
unfolding register_conflict_copy new_file_record replace_files
register-copied = refl

remove_not_copy :
    remove_conflict_copy two "a" 4 ≡ raise (value_error "file_id is not a conflict_copy" ("a" ∷ []))
unfolding remove_conflict_copy
remove_not_copy = refl

abbrev stone : TombstoneRecord
stone = record {
  file_id = "a";
  deleted_revision = none;
  deleted_at = 9;
  local_delete_seq = 1;
  last_known_path = some "Notes/a.md";
  deleted_by_device = some "pc";
  meta = none;
}

abbrev without_a : FileMapDocument
without_a =
    map_of (record (file "a" "Notes/a.md" 9) { status = deleted } ∷ file "b" "Notes/b.md" 2 ∷ []) 9

delete-a : mark_deleted two "a" 9 1 none (some "pc") ≡ ok (without_a, stone)
unfolding mark_deleted new_file_record new_tombstone_record replace_files
delete-a = refl

path : Edits (map_of [] 0) moved
path =
    next
      (next (next here (adds "a" "Notes/a.md" note 1 (some "sha256:1") none refl add-one))
        (adds "b" "Notes/b.md" note 2 (some "sha256:1") none refl add-two))
      (renames "a" "Notes/c.md" 3 rename-moved)

Edits-IsWellFormed_example : IsWellFormed moved
Edits-IsWellFormed_example =
    Edits-IsWellFormed {d = map_of [] 0} {e = moved} (record { ids = tt; paths = tt }) path

add_file_iff_example :
    ((after : FileMapDocument) × (add_file one "b" "Notes/b.md" note 2 none none ≡ ok after)) ↔ (
      (◌≢◌ {A = String} "b" "")
      × (◌≢◌ {A = String} "Notes/b.md" "")
      × ((r : FileRecord) → Has r one.files → r.status ≢ deleted → r.path ≢ "Notes/b.md"))
unfolding new_file_map_document
add_file_iff_example = add_file_iff one "b" "Notes/b.md" note 2 none none refl

remove-register_example : remove_conflict_copy copied "x" 5 ≡ ok (map_of two.files 5)
remove-register_example =
    remove-register two {after = copied} "a" "x" "Notes/a (conflict).md" 4 5 (some "sha256:2") refl
      register-copied

mark_deleted_effect_example :
    All (λ r. (has_id "a" r && not (is_deleted r.status)) ≡ false) without_a.files
    × (filter (λ r. not (has_id "a" r)) without_a.files
        ≡ filter (λ r. not (has_id "a" r)) two.files)
    × (stone.file_id ≡ "a")
    × ((r : FileRecord) × Has r two.files
        × (r.file_id ≡ "a")
        × (stone.last_known_path ≡ some r.path))
mark_deleted_effect_example =
    mark_deleted_effect two {after = without_a} "a" 9 1 none (some "pc") {tombstone = stone}
      delete-a
