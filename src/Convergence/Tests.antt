-- ===== src/Convergence/Tests.antt =====
-- convergence.py and manifest.py on small inputs.
use mathlib.Core.List.{Permᴰ}
use personal_knowledge_base.Base.{
  ℕ, String, ◌≡◌, ◌≤◌, refl, true, false, not, ◌&&◌, ◌||◌, Option, none, some, List, [], ◌∷◌, ◌++◌,
  map, filter, All, Has,
}
use personal_knowledge_base.Base.Sort.{sorted}
use personal_knowledge_base.Base.Text.{str_leb}
use personal_knowledge_base.Base.Dict.{get, put, delete}
use personal_knowledge_base.Base.Exec.{ok, traverse}
use personal_knowledge_base.Models.{
  note, active, conflict_copy, deleted, FileRecord, new_file_record, FileMapDocument, replace_files,
  TombstoneRecord, new_tombstone_record, ManifestFileEntry, ManifestRecord, new_manifest_record,
}
use personal_knowledge_base.Convergence.Defs.{
  stone_id, file_record_id, among, merge_manifest_tombstones, converge_manifest_state,
  ManifestConvergenceResult, entry_leb, path_leb, in_manifest, is_copy, infer_file_type,
}
use personal_knowledge_base.Convergence.Merge.{stone_key}
use personal_knowledge_base.Convergence.Tombstones.{merge-order, among-merge}
use personal_knowledge_base.Convergence.Kept.{converge-keeps_manifest, converge-drops_committed}
use personal_knowledge_base.Convergence.Filemap.{converge_files, view, entry_view, is_live, is_gone}
use personal_knowledge_base.Manifest.{
  CanonicalPayload, compute_manifest_summary_hash, compute_intent_manifest_hash,
  finalize_manifest_revision,
}
use personal_knowledge_base.Manifest.Order.{hashes-reordered, finalize-hashes}

abbrev stone : String → Option ℕ → ℕ → ℕ → TombstoneRecord
stone file_id revision at seq = record {
  file_id = file_id;
  deleted_revision = revision;
  deleted_at = at;
  local_delete_seq = seq;
  last_known_path = some "Notes/gone.md";
  deleted_by_device = none;
  meta = none;
}

abbrev entry : String → String → ManifestFileEntry
entry file_id path = record {
  file_id = file_id;
  path = path;
  type = note;
  content_hash = "sha256:1";
  blob_id = "blob";
  size = 3;
  mtime = 1;
  mime_type = none;
  meta = none;
}

abbrev manifest_of : List ManifestFileEntry → List TombstoneRecord → ManifestRecord
manifest_of files tombstones = record {
  vault_id = "v";
  revision = 7;
  base_revision = 6;
  created_by_device = "pc";
  created_at = 50;
  files = files;
  tombstones = tombstones;
  summary_hash = "s";
  schema_version = "v1";
  meta = none;
}

abbrev manifest : ManifestRecord
manifest =
    manifest_of (entry "f" "Notes/f.md" ∷ entry "e" "Notes/e.md" ∷ [])
      (stone "m" (some 6) 40 8 ∷ [])

-- "p" is pending, and "q" was committed before the manifest's revision.
abbrev local : List TombstoneRecord
local = stone "p" none 45 2 ∷ stone "q" (some 5) 30 1 ∷ []

abbrev copy : FileRecord
copy = record {
  file_id = "x";
  path = "Notes/f (conflict).md";
  type = note;
  status = conflict_copy;
  updated_at = 4;
  content_hash = none;
  last_known_revision = none;
  conflict_source_file_id = some "f";
  meta = none;
}

abbrev document : FileMapDocument
document = record {
  vault_id = "v";
  updated_at = 1;
  files = copy ∷ [];
  schema_version = "v1";
  meta = none;
}

abbrev merged : List TombstoneRecord
merged = stone "p" none 45 2 ∷ stone "q" (some 5) 30 1 ∷ stone "m" (some 6) 40 0 ∷ []

merge : merge_manifest_tombstones local manifest.tombstones ≡ ok merged
unfolding merge_manifest_tombstones new_tombstone_record get put delete sorted traverse str_leb
merge = refl

abbrev live : String → String → FileRecord
live file_id path = record {
  file_id = file_id;
  path = path;
  type = note;
  status = active;
  updated_at = 60;
  content_hash = some "sha256:1";
  last_known_revision = some 7;
  conflict_source_file_id = none;
  meta = none;
}

abbrev gone : String → Option ℕ → ℕ → FileRecord
gone file_id revision at = record {
  file_id = file_id;
  path = "Notes/gone.md";
  type = note;
  status = deleted;
  updated_at = at;
  content_hash = none;
  last_known_revision = revision;
  conflict_source_file_id = none;
  meta = none;
}

abbrev result : ManifestConvergenceResult
result = record {
  filemap = record {
    vault_id = "v";
    updated_at = 60;
    files =
        live "e" "Notes/e.md"
        ∷ live "f" "Notes/f.md"
        ∷ gone "m" (some 6) 40
        ∷ gone "p" none 45
        ∷ copy
        ∷ [];
    schema_version = "v1";
    meta = none;
  };
  tombstones = stone "m" (some 6) 40 0 ∷ stone "p" none 45 2 ∷ [];
  reclaimed_tombstones = stone "q" (some 5) 30 1 ∷ [];
}

converge : converge_manifest_state document manifest local 60 ≡ ok result
unfolding converge_manifest_state new_tombstone_record new_file_record replace_files get put delete
    sorted traverse str_leb infer_file_type
converge = refl

merge-order_example :
    (adopted : List TombstoneRecord) × (map stone_key merged
      ≡ map stone_key local ++ map stone_key adopted)
    × All (λ r. r.local_delete_seq ≡ 0) adopted
    × ((j : String) → among adopted j ≡ (not (among local j) && among manifest.tombstones j))
merge-order_example = merge-order local manifest.tombstones merged merge

among-merge_example : among merged "m" ≡ (among local "m" || among manifest.tombstones "m")
among-merge_example = among-merge local manifest.tombstones merged "m" merge

converge-keeps_manifest_example : among result.tombstones "m" ≡ true
converge-keeps_manifest_example =
    converge-keeps_manifest document manifest local 60 result "m" converge refl

converge-drops_committed_example :
    (among manifest.tombstones "q" ≡ false)
    × ((r : TombstoneRecord) × Has r local
        × (r.file_id ≡ "q")
        × ((revision : ℕ) × (r.deleted_revision ≡ some revision) × (revision ≤ 7)))
converge-drops_committed_example =
    converge-drops_committed document manifest local 60 result "q" converge refl refl

converge_files_example :
    (map view (filter is_live result.filemap.files)
      ≡ map (entry_view 7) (sorted entry_leb manifest.files))
    × (map file_record_id (filter is_gone result.filemap.files)
        ≡ map stone_id (
            sorted path_leb (filter (λ r. not (in_manifest manifest r.file_id)) result.tombstones)))
    × (filter is_copy result.filemap.files ≡ filter is_copy document.files)
converge_files_example = converge_files document manifest local 60 result converge

abbrev same : String → String
same s = s

-- A digest that tells the two purposes apart.
abbrev purpose_digest : CanonicalPayload → String
purpose_digest (CanonicalPayload.final_payload v r f t) = "final"
purpose_digest (CanonicalPayload.intent_payload v i b d c f t) = "intent"

abbrev swapped : ManifestRecord
swapped =
    manifest_of (entry "e" "Notes/e.md" ∷ entry "f" "Notes/f.md" ∷ [])
      (stone "m" (some 6) 40 8 ∷ [])

hashes-reordered_example :
    (compute_manifest_summary_hash same purpose_digest manifest
      ≡ compute_manifest_summary_hash same purpose_digest swapped)
    × (compute_intent_manifest_hash same purpose_digest manifest
        ≡ compute_intent_manifest_hash same purpose_digest swapped)
hashes-reordered_example =
    hashes-reordered same purpose_digest manifest swapped
      (record { files = ((refl, tt), (tt, tt)); tombstones = (tt, tt) })
      (record { files = Permᴰ.swap refl refl; tombstones = Permᴰ.cons refl Permᴰ.nil; rest = refl })

abbrev finalized : ManifestRecord
finalized = record manifest { revision = 8; summary_hash = "final" }

finalize : finalize_manifest_revision same purpose_digest manifest 8 ≡ ok finalized
unfolding finalize_manifest_revision new_manifest_record
finalize = refl

finalize-hashes_example :
    (compute_intent_manifest_hash same purpose_digest finalized
      ≡ compute_intent_manifest_hash same purpose_digest manifest)
    × (finalized.summary_hash ≡ compute_manifest_summary_hash same purpose_digest finalized)
    × (finalized.revision ≡ 8)
finalize-hashes_example = finalize-hashes same purpose_digest manifest finalized 8 finalize
