-- ===== src/Convergence/Defs.antt =====
-- convergence.py: the merge of a pulled manifest into the local tombstones and the file map,
-- each definition under the name of its function.

use text.Mathlib.Text.{starts_with}
use personal_knowledge_base.Base.{
  ℕ, max, String, ◌==◌, Bool, true, false, not, ◌&&◌, ◌||◌, Option, none, some, List, [], ◌∷◌, ◌++◌,
  any, map, filter, leb, is_some, first_some, or_else, if◌then◌else◌,
}
use personal_knowledge_base.Base.Text.{str_leb}
use personal_knowledge_base.Base.Dict.{Dict, get, put, delete}
use personal_knowledge_base.Base.Sort.{sorted}
use personal_knowledge_base.Base.Exec.{Result, ok, ◌>>=◌, traverse, require, value_error}
use personal_knowledge_base.Models.{
  FileType, note, attachment, ai_wiki, ai_index, ai_agents, active, deleted, is_conflict_copy,
  FileRecord, new_file_record, FileMapDocument, replace_files, TombstoneRecord,
  new_tombstone_record, ManifestFileEntry, ManifestRecord,
}

unfoldable pub infer_file_type : String → FileType
infer_file_type path =
    if starts_with path "Attachments/"
    then attachment
    else if starts_with path ".ai/wiki/"
    then ai_wiki
    else if starts_with path ".ai/index/"
    then ai_index
    else if (path == "AGENTS.md") || starts_with path ".ai/agents/"
    then ai_agents
    else note

-- A local tombstone keeps its place in the delete sequence.
abbrev pub merged : TombstoneRecord → TombstoneRecord → TombstoneRecord
merged local remote = record {
  file_id = local.file_id;
  deleted_revision = first_some local.deleted_revision remote.deleted_revision;
  deleted_at = max local.deleted_at remote.deleted_at;
  local_delete_seq = local.local_delete_seq;
  last_known_path = or_else local.last_known_path remote.last_known_path;
  deleted_by_device = or_else local.deleted_by_device remote.deleted_by_device;
  meta = first_some local.meta remote.meta;
}

unfoldable pub merge_tombstone : TombstoneRecord → TombstoneRecord → Result TombstoneRecord
merge_tombstone local remote = new_tombstone_record (merged local remote)

-- `{record.file_id: record for record in records}`, on top of a dict
unfoldable pub add_by_id : {A : Type 0} → (A → String) → Dict A → List A → Dict A
add_by_id key d [] = d
add_by_id key d (r ∷ rest) = add_by_id key (put d (key r) r) rest

abbrev pub stone_id : TombstoneRecord → String
stone_id r = r.file_id

abbrev pub file_record_id : FileRecord → String
file_record_id r = r.file_id

-- A local record, merged with the manifest's record of its `file_id` if there is one.
unfoldable pub merge_one : Dict TombstoneRecord → TombstoneRecord → Result TombstoneRecord
unfolding merge_tombstone
merge_one manifest_by_id r = elim (get manifest_by_id r.file_id) [
  | none ↦ ok r
  | some remote ↦ merge_tombstone r remote
]

-- The first loop: the merged records, and what is left of `manifest_by_id`.
unfoldable pub merge_loop :
    List TombstoneRecord
    → Dict TombstoneRecord
    → Result (List TombstoneRecord × Dict TombstoneRecord)
unfolding merge_one
merge_loop [] manifest_by_id = ok ([], manifest_by_id)
merge_loop (r ∷ rest) manifest_by_id = do
  r' ← merge_one manifest_by_id r
  rest' ← merge_loop rest (delete manifest_by_id r.file_id)
  ok (r' ∷ rest'.0, rest'.1)

abbrev pub values : Dict TombstoneRecord → List TombstoneRecord
values = map (λ entry. entry.1)

abbrev pub stone_id_leb : TombstoneRecord → TombstoneRecord → Bool
stone_id_leb a b = str_leb a.file_id b.file_id

-- A record that only the manifest has, with no place in the local delete sequence.
unfoldable pub adopt : TombstoneRecord → Result TombstoneRecord
adopt r = new_tombstone_record (record r { local_delete_seq = 0 })

unfoldable pub merge_manifest_tombstones :
    (local_tombstones manifest_tombstones : List TombstoneRecord) → Result (List TombstoneRecord)
unfolding merge_loop add_by_id adopt
merge_manifest_tombstones local_tombstones manifest_tombstones = do
  looped ← merge_loop local_tombstones (add_by_id stone_id [] manifest_tombstones)
  adopted ← traverse adopt (sorted stone_id_leb (values looped.1))
  ok (looped.0 ++ adopted)

-- `record.file_id in {r.file_id for r in records}`
abbrev pub among : List TombstoneRecord → String → Bool
among records file_id = any (λ r. r.file_id == file_id) records

abbrev revision_reached : ℕ → Option ℕ → Bool
revision_reached target none = false
revision_reached target (some revision) = leb revision target

abbrev pub is_reclaimable : List TombstoneRecord → ℕ → TombstoneRecord → Bool
is_reclaimable manifest_tombstones target r =
    if among manifest_tombstones r.file_id
    then false
    else revision_reached target r.deleted_revision

unfoldable pub select_reclaimable_tombstones :
    (local_tombstones manifest_tombstones : List TombstoneRecord)
    → (target_revision : ℕ) → List TombstoneRecord
select_reclaimable_tombstones local_tombstones manifest_tombstones target_revision =
    filter (is_reclaimable manifest_tombstones target_revision) local_tombstones

-- `sorted_files`: by path, then by `file_id`
abbrev pub entry_leb : ManifestFileEntry → ManifestFileEntry → Bool
entry_leb a b = if a.path == b.path then str_leb a.file_id b.file_id else str_leb a.path b.path

abbrev text_of : Option String → String
text_of none = ""
text_of (some s) = s

abbrev pub path_leb : TombstoneRecord → TombstoneRecord → Bool
path_leb a b =
    let p = text_of a.last_known_path in
    let q = text_of b.last_known_path in if p == q then str_leb a.file_id b.file_id else str_leb p q

abbrev pub meta_of : Option FileRecord → personal_knowledge_base.Models.Meta
meta_of none = none
meta_of (some existing) = existing.meta

unfoldable pub rebuild_active :
    Dict FileRecord → (rewritten_at revision : ℕ) → ManifestFileEntry → Result FileRecord
rebuild_active current_by_id rewritten_at revision r = new_file_record (record {
  file_id = r.file_id;
  path = r.path;
  type = r.type;
  status = active;
  updated_at = rewritten_at;
  content_hash = some r.content_hash;
  last_known_revision = some revision;
  conflict_source_file_id = none;
  meta = meta_of (get current_by_id r.file_id);
})

abbrev pub path_of : Option FileRecord → Option String
path_of none = none
path_of (some existing) = some existing.path

abbrev type_of : String → Option FileRecord → FileType
type_of path none = infer_file_type path
type_of path (some existing) = existing.type

abbrev hash_of : Option FileRecord → Option String
hash_of none = none
hash_of (some existing) = existing.content_hash

unfoldable pub rebuild_deleted : Dict FileRecord → TombstoneRecord → Result FileRecord
rebuild_deleted current_by_id tombstone = do
  let existing = get current_by_id tombstone.file_id
  path ←
      require (or_else tombstone.last_known_path (path_of existing))
        (value_error "cannot rebuild deleted record without a path" (tombstone.file_id ∷ []))
  new_file_record (record {
    file_id = tombstone.file_id;
    path = path;
    type = type_of path existing;
    status = deleted;
    updated_at = tombstone.deleted_at;
    content_hash = hash_of existing;
    last_known_revision = tombstone.deleted_revision;
    conflict_source_file_id = none;
    meta = meta_of existing;
  })

abbrev pub is_copy : FileRecord → Bool
is_copy r = is_conflict_copy r.status

-- `record.file_id in manifest_file_ids`
abbrev pub in_manifest : ManifestRecord → String → Bool
in_manifest manifest file_id = any (λ r. r.file_id == file_id) manifest.files

unfoldable pub rebuild_filemap_from_manifest :
    FileMapDocument
    → ManifestRecord
    → (local_tombstones : List TombstoneRecord) → (rewritten_at : ℕ) → Result FileMapDocument
unfolding rebuild_active rebuild_deleted
rebuild_filemap_from_manifest current_document manifest local_tombstones rewritten_at = do
  let current_by_id =
      add_by_id file_record_id [] (filter (λ r. not (is_copy r)) current_document.files)
  let retained = filter (λ r. not (in_manifest manifest r.file_id)) local_tombstones
  live ←
      traverse (rebuild_active current_by_id rewritten_at manifest.revision)
        (sorted entry_leb manifest.files)
  gone ← traverse (rebuild_deleted current_by_id) (sorted path_leb retained)
  replace_files current_document (live ++ (gone ++ filter is_copy current_document.files))
      rewritten_at

pub record ManifestConvergenceResult : Type 0 where
  pub filemap : FileMapDocument
  pub tombstones : List TombstoneRecord
  pub reclaimed_tombstones : List TombstoneRecord

abbrev pub seq_leb : TombstoneRecord → TombstoneRecord → Bool
seq_leb a b =
    if personal_knowledge_base.Base.nat_eq a.local_delete_seq b.local_delete_seq
    then str_leb a.file_id b.file_id
    else leb a.local_delete_seq b.local_delete_seq

unfoldable pub converge_manifest_state :
    FileMapDocument
    → ManifestRecord
    → (local_tombstones : List TombstoneRecord) → (rewritten_at : ℕ)
    → Result ManifestConvergenceResult
unfolding merge_manifest_tombstones rebuild_filemap_from_manifest select_reclaimable_tombstones
converge_manifest_state current_document manifest local_tombstones rewritten_at = do
  merged_tombstones ← merge_manifest_tombstones local_tombstones manifest.tombstones
  let reclaimed =
      select_reclaimable_tombstones merged_tombstones manifest.tombstones manifest.revision
  let retained = sorted seq_leb (filter (λ r. not (among reclaimed r.file_id)) merged_tombstones)
  rebuilt ← rebuild_filemap_from_manifest current_document manifest retained rewritten_at
  ok (record { filemap = rebuilt; tombstones = retained; reclaimed_tombstones = reclaimed })
