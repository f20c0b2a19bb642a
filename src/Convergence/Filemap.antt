-- ===== src/Convergence/Filemap.antt =====
-- convergence.py: the file map that a convergence writes.
use personal_knowledge_base.Base.{
  ℕ, String, ◌≡◌, refl, ap, ◌∙◌, Bool, true, false, not, Option, some, List, [], ◌++◌, map, filter,
  arith, All, filter-append, filter_of_All, filter_none, All-filter_of, All-imp, append-nil,
  Option-cases, inl, inr, or_else,
}
use personal_knowledge_base.Base.Dict.{Dict, get}
use personal_knowledge_base.Base.Sort.{sorted}
use personal_knowledge_base.Base.Exec.{ok, >>=_inv, traverse, traverse-map, traverse-All}
use personal_knowledge_base.Models.{
  FileType, active, deleted, is_active, is_deleted, is_conflict_copy, FileRecord, new_file_record,
  FileMapDocument, replace_files, TombstoneRecord, ManifestFileEntry, ManifestRecord,
}
use personal_knowledge_base.Convergence.Defs.{
  file_record_id, stone_id, add_by_id, entry_leb, path_leb, is_copy, in_manifest, rebuild_active,
  rebuild_deleted, path_of, rebuild_filemap_from_manifest, ManifestConvergenceResult,
  converge_manifest_state,
}
use personal_knowledge_base.Convergence.Kept.{converge-Parts}

abbrev pub is_live : FileRecord → Bool
is_live r = is_active r.status

abbrev pub is_gone : FileRecord → Bool
is_gone r = is_deleted r.status

-- What the manifest decides of a file.
abbrev pub view : FileRecord → String × String × FileType × Option String × Option ℕ
view r = (r.file_id, r.path, r.type, r.content_hash, r.last_known_revision)

abbrev pub entry_view :
    ℕ → ManifestFileEntry → String × String × FileType × Option String × Option ℕ
entry_view revision r = (r.file_id, r.path, r.type, some r.content_hash, some revision)

module _ (d : Dict FileRecord) where
  active_view :
      (at revision : ℕ) (r : ManifestFileEntry) (y : FileRecord)
      → rebuild_active d at revision r ≡ ok y
      → view y ≡ entry_view revision r
  unfolding rebuild_active new_file_record
  active_view at v r y e = ground arith

  active_status :
      (at revision : ℕ) (r : ManifestFileEntry) (y : FileRecord)
      → rebuild_active d at revision r ≡ ok y
      → y.status ≡ active
  unfolding rebuild_active new_file_record
  active_status at v r y e = ground arith

  deleted_parts :
      (r : TombstoneRecord) (y : FileRecord)
      → rebuild_deleted d r ≡ ok y
      → (file_record_id y ≡ stone_id r) × (y.status ≡ deleted)
  unfolding rebuild_deleted new_file_record
  deleted_parts r y e =
      elim (Option-cases (or_else r.last_known_path (path_of (get d r.file_id)))) [
        | inl missing ↦ absurd (ground (arith, missing))
        | inr (path, found) ↦ ground (arith, found)
      ]

files_of :
    (document after : FileMapDocument) (files : List FileRecord) (t : ℕ)
    → replace_files document files t ≡ ok after
    → after.files ≡ files
unfolding replace_files
files_of document after files t e = ground arith

filter_parts :
    (p : FileRecord → Bool) (xs ys zs : List FileRecord)
    → filter p (xs ++ (ys ++ zs)) ≡ filter p xs ++ (filter p ys ++ filter p zs)
filter_parts p xs ys zs = simp filter-append

-- Three lists of records, each of one status, are found again by the status.
by_status :
    (xs ys zs : List FileRecord)
    → All (λ r. r.status ≡ active) xs
    → All (λ r. r.status ≡ deleted) ys
    → All (λ r. is_copy r ≡ true) zs
    → (filter is_live (xs ++ (ys ++ zs)) ≡ xs)
      × (filter is_gone (xs ++ (ys ++ zs)) ≡ ys)
      × (filter is_copy (xs ++ (ys ++ zs)) ≡ zs)
by_status xs ys zs hx hy hz = (
  rw
      (
        filter_parts is_live xs ys zs,
        filter_of_All is_live xs (All-imp _ _ (λ r e. ap is_active e) xs hx),
        filter_none is_live ys (All-imp _ _ (λ r e. ap is_active e) ys hy),
        filter_none is_live zs (All-imp _ _ copy_live zs hz),
      )
      (append-nil xs),
  rw
      (
        filter_parts is_gone xs ys zs,
        filter_none is_gone xs (All-imp _ _ (λ r e. ap is_deleted e) xs hx),
        filter_of_All is_gone ys (All-imp _ _ (λ r e. ap is_deleted e) ys hy),
        filter_none is_gone zs (All-imp _ _ copy_gone zs hz),
      )
      (append-nil ys),
  rw
      (
        filter_parts is_copy xs ys zs,
        filter_none is_copy xs (All-imp _ _ (λ r e. ap is_conflict_copy e) xs hx),
        filter_none is_copy ys (All-imp _ _ (λ r e. ap is_conflict_copy e) ys hy),
        filter_of_All is_copy zs hz,
      )
      refl,
)
  where
    copy_live : (r : FileRecord) → is_copy r ≡ true → is_live r ≡ false
    copy_live r e = ground arith

    copy_gone : (r : FileRecord) → is_copy r ≡ true → is_gone r ≡ false
    copy_gone r e = ground arith

module _ (document : FileMapDocument) (manifest : ManifestRecord) where
  -- The three groups that a rebuild writes.
  rebuild_files :
      (stones : List TombstoneRecord) (at : ℕ) (after : FileMapDocument)
      → rebuild_filemap_from_manifest document manifest stones at ≡ ok after
      → (map view (filter is_live after.files)
          ≡ map (entry_view manifest.revision) (sorted entry_leb manifest.files))
        × (map file_record_id (filter is_gone after.files)
            ≡ map stone_id
                (sorted path_leb (filter (λ r. not (in_manifest manifest r.file_id)) stones)))
        × (filter is_copy after.files ≡ filter is_copy document.files)
  unfolding rebuild_filemap_from_manifest
  rebuild_files stones at after e =
      let d = add_by_id file_record_id [] (filter (λ r. not (is_copy r)) document.files) in
      let entries = sorted entry_leb manifest.files in
      let retained = sorted path_leb (filter (λ r. not (in_manifest manifest r.file_id)) stones) in
      let copies = filter is_copy document.files in
      let (live, made, e₁) =
        >>=_inv (traverse (rebuild_active d at manifest.revision) entries) _ e in
      let (gone, deleted_made, e₂) = >>=_inv (traverse (rebuild_deleted d) retained) _ e₁ in
      let groups =
        by_status live gone copies
          (traverse-All _ (λ r. r.status ≡ active) (active_status d at manifest.revision) entries
            live made)
          (traverse-All _ (λ r. r.status ≡ deleted) (λ r y q. (deleted_parts d r y q).1) retained
            gone deleted_made)
          (All-filter_of (λ r. is_copy r ≡ true) is_copy (λ r q. q) document.files) in
      rw (files_of document after (live ++ (gone ++ copies)) at e₂) (
        ap (map view) groups.0
            ∙ traverse-map _ view (entry_view manifest.revision)
                (active_view d at manifest.revision) entries live made,
        ap (map file_record_id) groups.1
            ∙ traverse-map _ file_record_id stone_id (λ r y q. (deleted_parts d r y q).0) retained
                gone deleted_made,
        groups.2,
      )

-- The file map after a convergence has, apart by status: the manifest's files, in its order, with the
-- manifest's path, type, hash and revision; one deleted record for each retained tombstone of a file
-- that the manifest does not hold; and the conflict copies of before, untouched.
pub converge_files :
    (document : FileMapDocument) (manifest : ManifestRecord) (local : List TombstoneRecord) (at : ℕ)
    (result : ManifestConvergenceResult)
    → converge_manifest_state document manifest local at ≡ ok result
    → (map view (filter is_live result.filemap.files)
        ≡ map (entry_view manifest.revision) (sorted entry_leb manifest.files))
      × (map file_record_id (filter is_gone result.filemap.files)
          ≡ map stone_id (
              sorted path_leb
                (filter (λ r. not (in_manifest manifest r.file_id)) result.tombstones)))
      × (filter is_copy result.filemap.files ≡ filter is_copy document.files)
converge_files document manifest local at result e =
    rebuild_files document manifest result.tombstones at result.filemap
      (converge-Parts document manifest local at result e).rebuilt
