-- ===== src/Commit/Frozen.antt =====
-- sync_commit.py: a plan that is fresh does not drift, and gives the manifest of its file map.
use mathlib.Core.Path.{subst}
use personal_knowledge_base.Base.{
  ℕ, String, ◌==◌, eq_iff, ◌≡◌, refl, ap, sym, ◌∙◌, true, false, not, none, some, List, [], ◌∷◌,
  map, Has, Apart, Has-filter, Has-of_filter, Has-map, All-of_Has, All-map, any_of_Has, any_of_All,
  inl, inr,
}
use personal_knowledge_base.Base.Dict.{get}
use personal_knowledge_base.Base.Index.{is_in, index, index_found, Has-index}
use personal_knowledge_base.Base.Sort.{sorted, Has-sorted, sorted-Has}
use personal_knowledge_base.Base.Exec.{
  Result, ok, raise_if, require, ◌>>=◌, >>=_inv, ok-injective, traverse, traverse-Has, Has-traverse,
}
use personal_knowledge_base.Models.{
  FileType, note, attachment, ai_wiki, ai_index, ai_agents, type_eq, FileRecord, FileMapDocument,
  is_active, TombstoneRecord, ManifestFileEntry, new_manifest_file_entry,
}
use personal_knowledge_base.Manifest.Order.{by_key}
use personal_knowledge_base.Commit.Entries.{
  get_field, text_field, number_field, mime_field, build_manifest_file_entry, active_files,
  validate_commit_document_paths, build_commit_manifest,
}
use personal_knowledge_base.Commit.Snapshot.{
  ContentSnapshotFile, ContentSnapshotPlan, derive_snapshot_source_version, frozen_file, freeze,
  record_leb, active_sorted, frozen_key, record_key, build_content_snapshot_plan, is_drifted,
  drift_loop, detect_content_snapshot_drift, entry_from_snapshot, sets_differ, check_structure,
  assert_snapshot_plan_covers_document, frozen_entry, build_commit_manifest_from_snapshot_plan,
}

traverse_eq :
    {A B : Type 0} (f g : A → Result B) (xs : List A)
    → ((x : A) → Has x xs → f x ≡ g x)
    → traverse f xs ≡ traverse g xs
unfolding traverse
traverse_eq f g [] same = refl
traverse_eq f g (x ∷ xs) same =
    ap (λ r. r >>= (λ y. traverse f xs >>= (λ ys. ok (y ∷ ys)))) (same x (inl refl))
    ∙ ap (λ r. g x >>= (λ y. r >>= (λ ys. ok (y ∷ ys))))
        (traverse_eq f g xs (λ y h. same y (inr h)))

type_eq_refl : (t : FileType) → type_eq t t ≡ true
type_eq_refl note = refl
type_eq_refl attachment = refl
type_eq_refl ai_wiki = refl
type_eq_refl ai_index = refl
type_eq_refl ai_agents = refl

new_entry-same : (e f : ManifestFileEntry) → new_manifest_file_entry e ≡ ok f → e ≡ f
unfolding new_manifest_file_entry
new_entry-same e f h =
    let (_, _, h₁) = >>=_inv (raise_if (e.file_id == "") _) _ h in
    let (_, _, h₂) = >>=_inv (raise_if (e.path == "") _) _ h₁ in
    let (_, _, h₃) = >>=_inv (raise_if (e.content_hash == "") _) _ h₂ in
    let (_, _, h₄) = >>=_inv (raise_if (e.blob_id == "") _) _ h₃ in ok-injective h₄

-- What the plan keeps of an active file.
record IsFrozen (r : FileRecord) (f : ContentSnapshotFile) : Type 0 where
  id : f.file_id ≡ r.file_id
  path : f.path ≡ r.path
  type : f.type ≡ r.type
  entry : entry_from_snapshot f ≡ build_manifest_file_entry r
  token : derive_snapshot_source_version r ≡ ok f.source_version_token

frozen_file-entry :
    (r : FileRecord) (entry : ManifestFileEntry) (token : String)
    → build_manifest_file_entry r ≡ ok entry
    → entry_from_snapshot (frozen_file entry r token) ≡ build_manifest_file_entry r
unfolding build_manifest_file_entry entry_from_snapshot
frozen_file-entry r entry token h =
    let (hash, has_hash, h₁) = >>=_inv (require r.content_hash _) _ h in
    let (meta, has_meta, h₂) = >>=_inv (require r.meta _) _ h₁ in
    let (blob, _, h₃) = >>=_inv (require (text_field (get_field meta "blob_id")) _) _ h₂ in
    let (size, _, h₄) = >>=_inv (require (number_field (get_field meta "size")) _) _ h₃ in
    let (mtime, _, h₅) = >>=_inv (require (number_field (get_field meta "mtime")) _) _ h₄ in
    let (mime, _, h₆) = >>=_inv (require (mime_field (get_field meta "mime_type")) _) _ h₅ in
    let e₀ : ManifestFileEntry = record {
      file_id = r.file_id;
      path = r.path;
      type = r.type;
      content_hash = hash;
      blob_id = blob;
      size = size;
      mtime = mtime;
      mime_type = mime;
      meta = none;
    } in
    subst (λ (e : ManifestFileEntry). entry_from_snapshot (frozen_file e r token) ≡ ok e)
      (new_entry-same e₀ entry h₆) (h₆ ∙ ap ok (sym (new_entry-same e₀ entry h₆)))
    ∙ sym h

freeze-IsFrozen : (r : FileRecord) (f : ContentSnapshotFile) → freeze r ≡ ok f → IsFrozen r f
unfolding freeze
freeze-IsFrozen r f h =
    let (entry, built, h₁) = >>=_inv (build_manifest_file_entry r) _ h in
    let (token, derived, h₂) = >>=_inv (derive_snapshot_source_version r) _ h₁ in
    subst (IsFrozen r) (ok-injective h₂) (record {
      id = refl;
      path = refl;
      type = refl;
      entry = frozen_file-entry r entry token built;
      token = derived;
    })

module _ (nfc : String → String) (document : FileMapDocument) (base_revision created_at : ℕ)
    (plan : ContentSnapshotPlan)
    (planned : build_content_snapshot_plan nfc document base_revision created_at ≡ ok plan)
    (distinct : Apart (λ (x y : FileRecord). x.file_id == y.file_id) (active_files document)) where
  plan-files :
      (plan.vault_id ≡ document.vault_id)
      × (traverse freeze (active_sorted document) ≡ ok plan.files)
  unfolding build_content_snapshot_plan
  plan-files =
      let (_, _, h) = >>=_inv (validate_commit_document_paths nfc document) _ planned in
      let (files, frozen, end) = >>=_inv (traverse freeze (active_sorted document)) _ h in
      let same = ok-injective end in
      (
        sym (ap (λ (p : ContentSnapshotPlan). p.vault_id) same),
        frozen ∙ ap (λ (p : ContentSnapshotPlan). ok p.files) same,
      )

  sorted-active : (r : FileRecord) → Has r (active_files document) → Has r (active_sorted document)
  sorted-active r h =
      let (has, live) = Has-of_filter (λ (x : FileRecord). is_active x.status) r document.files h in
      Has-filter (λ (x : FileRecord). is_active x.status) r (sorted record_leb document.files)
        (sorted-Has record_leb r document.files has) live

  active-sorted : (r : FileRecord) → Has r (active_sorted document) → Has r (active_files document)
  active-sorted r h =
      let (has, live) =
        Has-of_filter (λ (x : FileRecord). is_active x.status) r (sorted record_leb document.files)
          h in
      Has-filter (λ (x : FileRecord). is_active x.status) r document.files
        (Has-sorted record_leb r document.files has) live

  -- A frozen file is that of one active file.
  IsFrozen-origin :
      (f : ContentSnapshotFile)
      → Has f plan.files
      → (r : FileRecord) × Has r (active_files document) × IsFrozen r f
  IsFrozen-origin f h =
      let (r, has, from) =
        Has-traverse freeze f (active_sorted document) plan.files plan-files.1 h in
      (r, active-sorted r has, freeze-IsFrozen r f from)

  -- The index of the plan has each active file's frozen one.
  active-IsFrozen :
      (r : FileRecord)
      → Has r (active_files document)
      → (f : ContentSnapshotFile) × (get (index frozen_key [] plan.files) r.file_id ≡ some f)
        × Has f plan.files
        × IsFrozen r f
  active-IsFrozen r h =
      let (f₀, has₀, from₀) =
        traverse-Has freeze r (active_sorted document) plan.files plan-files.1
          (sorted-active r h) in
      let id₀ = (freeze-IsFrozen r f₀ from₀).id in
      let (f, found) = Has-index frozen_key [] plan.files f₀ has₀ in
      let (has, key) = index_found frozen_key plan.files (frozen_key f₀) f found in
      let (x, has_x, frozen) = IsFrozen-origin f has in
      let same : x ≡ r =
        by_key record_key (active_files document) distinct x r has_x h
          (sym frozen.id ∙ key ∙ id₀) in
      (
        f,
        ap (get (index frozen_key [] plan.files)) (sym id₀) ∙ found,
        has,
        subst (λ (y : FileRecord). IsFrozen y f) same frozen,
      )

  IsFrozen-current :
      (f : ContentSnapshotFile)
      → Has f plan.files
      → (r : FileRecord) × (get (index record_key [] (active_files document)) f.file_id ≡ some r)
        × IsFrozen r f
  IsFrozen-current f h =
      let (r, has, frozen) = IsFrozen-origin f h in
      let (x, found) = Has-index record_key [] (active_files document) r has in
      let (has_x, key) = index_found record_key (active_files document) r.file_id x found in
      let same : x ≡ r = by_key record_key (active_files document) distinct x r has_x has key in
      (
        r,
        ap (get (index record_key [] (active_files document))) frozen.id ∙ found ∙ ap some same,
        frozen,
      )

  none_drifts :
      (fs : List ContentSnapshotFile)
      → ((f : ContentSnapshotFile) → Has f fs → Has f plan.files)
      → drift_loop (index record_key [] (active_files document)) fs ≡ ok []
  unfolding drift_loop is_drifted
  none_drifts [] within = refl
  none_drifts (f ∷ fs) within =
      let (r, found, frozen) = IsFrozen-current f (within f (inl refl)) in
      let same_path : (r.path == f.path) ≡ true = (eq_iff r.path f.path).1 (sym frozen.path) in
      let same_type : type_eq r.type f.type ≡ true =
        ap (λ t. type_eq r.type t) frozen.type ∙ type_eq_refl r.type in
      let same_token : (f.source_version_token == f.source_version_token) ≡ true =
        (eq_iff f.source_version_token f.source_version_token).1 refl in
      let others = none_drifts fs (λ g h. within g (inr h)) in
      rw (drift_loop, is_drifted, found, same_path, same_type, frozen.token, same_token, others)
        refl

  -- A plan does not drift from the file map that it was built from, where each active file has a
  -- `file_id` of its own.
  pub fresh_plan-steady : detect_content_snapshot_drift plan document ≡ ok []
  unfolding detect_content_snapshot_drift
  fresh_plan-steady = none_drifts plan.files (λ f h. h)

  structure_holds :
      (rs : List FileRecord)
      → ((r : FileRecord) → Has r rs → Has r (active_files document))
      → check_structure (index frozen_key [] plan.files) rs ≡ ok tt
  unfolding check_structure
  structure_holds [] within = refl
  structure_holds (r ∷ rs) within =
      let (f, found, _, frozen) = active-IsFrozen r (within r (inl refl)) in
      let same_path : (f.path == r.path) ≡ true = (eq_iff f.path r.path).1 frozen.path in
      let same_type : type_eq f.type r.type ≡ true =
        ap (λ t. type_eq t r.type) frozen.type ∙ type_eq_refl r.type in
      rw (found, same_path, same_type) (structure_holds rs (λ x h. within x (inr h)))

  lists-key :
      {A : Type 0} (key : A → String) (x : A) (xs : List A) (s : String)
      → Has x xs
      → key x ≡ s
      → not (is_in s (map key xs)) ≡ false
  lists-key key x xs s h e =
      ap not (
        any_of_Has (λ t. t == s) (key x) (map key xs) (Has-map key x xs h) ((eq_iff (key x) s).1 e))

  sets_agree :
      sets_differ (map record_key (active_files document)) (map frozen_key plan.files) ≡ false
  sets_agree =
      let left =
        any_of_All (λ s. not (is_in s (map frozen_key plan.files)))
          (map record_key (active_files document))
          (All-map _ record_key (active_files document) (
            All-of_Has _ (active_files document) (λ r h.
              let (f, _, has, frozen) = active-IsFrozen r h in
              lists-key frozen_key f plan.files r.file_id has frozen.id))) in
      let right =
        any_of_All (λ s. not (is_in s (map record_key (active_files document))))
          (map frozen_key plan.files)
          (All-map _ frozen_key plan.files (
            All-of_Has _ plan.files (λ f h.
              let (r, has, frozen) = IsFrozen-origin f h in
              lists-key record_key r (active_files document) f.file_id has (sym frozen.id)))) in
      rw (left, right) refl

  plan_covers :
      assert_snapshot_plan_covers_document plan document ≡ ok (index frozen_key [] plan.files)
  unfolding assert_snapshot_plan_covers_document
  plan_covers =
      let same_vault : (document.vault_id == plan.vault_id) ≡ true =
        (eq_iff document.vault_id plan.vault_id).1 (sym plan-files.0) in
      rw (same_vault, sets_agree, structure_holds (active_files document) (λ r h. h)) refl

  -- From a plan that was built from the same file map, a commit gets the manifest, or the error, that it
  -- gets from the file map itself, where each active file has a `file_id` of its own.
  pub fresh_plan-manifest :
      (tombstones : List TombstoneRecord) (base : ℕ) (device : String) (created : ℕ)
      → build_commit_manifest_from_snapshot_plan nfc document plan tombstones base device created
        ≡ build_commit_manifest nfc document tombstones base device created
  unfolding build_commit_manifest_from_snapshot_plan build_commit_manifest
  fresh_plan-manifest tombstones base device created =
      let files_same : traverse (frozen_entry (index frozen_key [] plan.files))
            (active_files document)
          ≡ traverse build_manifest_file_entry (active_files document) =
        traverse_eq _ _ (active_files document)
          (λ r h. let (f, found, _, frozen) = active-IsFrozen r h in rw found frozen.entry) in
      rw (plan_covers, files_same) refl
