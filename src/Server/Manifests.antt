-- ===== src/Server/Manifests.antt =====
-- sync_store.py: `finalize_manifest_payload`, which gives a manifest its revision and its summary.
use mathlib.Core.Path.{subst}
use personal_knowledge_base.Base.{
  ℕ, String, ◌==◌, ◌≡◌, ap, sym, ◌∙◌, Bool, true, false, not, Option, none, some, List, map, Has,
  ◌↔◌,
}
use personal_knowledge_base.Base.Sort.{sorted, Has-sorted, sorted-Has}
use personal_knowledge_base.Base.Exec.{
  Result, ok, raise_if, ◌>>=◌, ◌>>◌, >>=_inv, ok-injective, traverse, traverse-Has, Has-traverse,
  store_error,
}
use personal_knowledge_base.Models.{TombstoneRecord, ManifestFileEntry, ManifestRecord}
use personal_knowledge_base.Convergence.Defs.{entry_leb, seq_leb}
use personal_knowledge_base.Manifest.{TombstonePayload, CanonicalPayload, normalize_file_entry}

-- A deletion that is not committed yet is committed at this revision.
abbrev pub dated : ℕ → TombstoneRecord → TombstoneRecord
dated revision r = record r {
  deleted_revision = elim r.deleted_revision [ none ↦ some revision | some n ↦ some n ];
}

abbrev pub is_blank : Option String → Bool
is_blank none = false
is_blank (some s) = s == ""

module _ (nfc : String → String) where
  unfoldable pub normalize_payload_entry : ManifestFileEntry → Result ManifestFileEntry
  unfolding normalize_file_entry
  normalize_payload_entry r = do
    raise_if (r.path == "") (store_error "invalid_request" "path must be a non-empty string")
    ok (normalize_file_entry nfc r)

  abbrev normal_path : TombstoneRecord → TombstoneRecord
  normal_path r = record r {
    last_known_path = elim r.last_known_path [ none ↦ none | some p ↦ some (nfc p) ];
  }

  unfoldable pub normalize_payload_tombstone :
      (revision : ℕ) → TombstoneRecord → Result TombstoneRecord
  normalize_payload_tombstone revision r = do
    raise_if (r.file_id == "") (store_error "invalid_request" "file_id must be a non-empty string")
    raise_if (is_blank r.last_known_path)
        (store_error "invalid_manifest" "last_known_path must be a non-empty string when provided")
    ok (normal_path (dated revision r))

tombstone_id :
    (nfc : String → String) (n : ℕ) (x y : TombstoneRecord)
    → normalize_payload_tombstone nfc n x ≡ ok y
    → y.file_id ≡ x.file_id
unfolding normalize_payload_tombstone
tombstone_id nfc n x y e =
    let (_, _, e₁) = >>=_inv (raise_if (x.file_id == "") _) _ e in
    let (_, _, e₂) = >>=_inv (raise_if (is_blank x.last_known_path) _) _ e₁ in
    sym (ap (λ (r : TombstoneRecord). r.file_id) (ok-injective e₂))

-- The manifest lists a deletion of the file.
abbrev pub Deletes : ManifestRecord → String → Type 0
Deletes m i = (r : TombstoneRecord) × Has r m.tombstones × (r.file_id ≡ i)

-- The JSON object of a tombstone has its `deleted_revision`.
abbrev pub payload_of : TombstoneRecord → TombstonePayload
payload_of r = record { record_ = r; has_deleted_revision = true }

module _ (nfc : String → String) (digest : CanonicalPayload → String) where
  abbrev pub payload_record :
      ManifestRecord
      → (revision : ℕ) → List ManifestFileEntry
      → List TombstoneRecord
      → ManifestRecord
  payload_record manifest revision files tombstones =
      let sorted_files = sorted entry_leb files in
      let sorted_tombstones = sorted seq_leb tombstones in
      record manifest {
        schema_version = "v1";
        revision = revision;
        files = sorted_files;
        tombstones = sorted_tombstones;
        summary_hash = digest (
            CanonicalPayload.final_payload "v1" revision sorted_files
              (map payload_of sorted_tombstones));
      }

  unfoldable pub finalize_manifest_payload : ManifestRecord → (revision : ℕ) → Result ManifestRecord
  unfolding normalize_payload_entry normalize_payload_tombstone
  finalize_manifest_payload manifest revision = do
    raise_if (not (manifest.schema_version == "v1"))
        (store_error "invalid_manifest" "manifest schema_version must be v1")
    raise_if (manifest.vault_id == "")
        (store_error "invalid_request" "vault_id must be a non-empty string")
    raise_if (manifest.created_by_device == "")
        (store_error "invalid_request" "created_by_device must be a non-empty string")
    files ← traverse (normalize_payload_entry nfc) manifest.files
    tombstones ← traverse (normalize_payload_tombstone nfc revision) manifest.tombstones
    ok (payload_record manifest revision files tombstones)

  pub finalize_inv :
      (m f : ManifestRecord) (n : ℕ)
      → finalize_manifest_payload m n ≡ ok f
      → (files : List ManifestFileEntry) × (stones : List TombstoneRecord) × (traverse
            (normalize_payload_entry nfc)
            m.files
          ≡ ok files)
        × (traverse (normalize_payload_tombstone nfc n) m.tombstones ≡ ok stones)
        × (payload_record m n files stones ≡ f)
  unfolding finalize_manifest_payload
  finalize_inv m f n e =
      let (_, _, e₁) = >>=_inv (raise_if (not (m.schema_version == "v1")) _) _ e in
      let (_, _, e₂) = >>=_inv (raise_if (m.vault_id == "") _) _ e₁ in
      let (_, _, e₃) = >>=_inv (raise_if (m.created_by_device == "") _) _ e₂ in
      let (files, at_files, e₄) = >>=_inv (traverse (normalize_payload_entry nfc) m.files) _ e₃ in
      let (stones, at_stones, e₅) =
        >>=_inv (traverse (normalize_payload_tombstone nfc n) m.tombstones) _ e₄ in
      (files, stones, at_files, at_stones, ok-injective e₅)

  -- The deletions of a finalized manifest are those of the manifest, by their ids.
  pub finalize-tombstone_ids :
      (m f : ManifestRecord) (n : ℕ)
      → finalize_manifest_payload m n ≡ ok f
      → (i : String) → Deletes f i ↔ Deletes m i
  finalize-tombstone_ids m f n e i =
      let (files, stones, _, at_stones, same) = finalize_inv m f n e in
      (
        λ (r, has, id).
            let here = subst (λ (x : ManifestRecord). Has r x.tombstones) (sym same) has in
            let (x, has_x, from) =
              Has-traverse (normalize_payload_tombstone nfc n) r m.tombstones stones at_stones
                (Has-sorted seq_leb r stones here) in
            (x, has_x, sym (tombstone_id nfc n x r from) ∙ id),
        λ (r, has, id).
            let (y, has_y, from) =
              traverse-Has (normalize_payload_tombstone nfc n) r m.tombstones stones at_stones
                has in
            (
              y,
              subst (λ (x : ManifestRecord). Has y x.tombstones) same
                  (sorted-Has seq_leb y stones has_y),
              tombstone_id nfc n r y from ∙ id,
            ),
      )
