-- ===== src/Manifest.antt =====
-- packages/vault-core/src/vault_core/manifest.py: the canonical form of a manifest and its hashes.
-- `nfc` stands for `unicodedata.normalize("NFC", ...)`, and `digest` for the SHA-256 of the canonical
-- JSON text.
pub mod Order
use personal_knowledge_base.Base.{
  ℕ, nat_eq, leb, String, ◌==◌, Bool, true, false, not, ◌&&◌, Option, none, some, List, [], map,
  is_some, if◌then◌else◌,
}
use personal_knowledge_base.Base.Text.{str_leb}
use personal_knowledge_base.Base.Sort.{sorted}
use personal_knowledge_base.Base.Exec.{Result, ok, ◌>>=◌}
use personal_knowledge_base.Models.{
  TombstoneRecord, ManifestFileEntry, ManifestRecord, new_manifest_record,
}
use personal_knowledge_base.Convergence.Defs.{entry_leb, seq_leb}

pub data ManifestHashPurpose : Type 0 where
  final intent : ManifestHashPurpose

-- The JSON object of a tombstone, which may lack the key `deleted_revision`.
pub record TombstonePayload : Type 0 where
  pub record_ : TombstoneRecord
  pub has_deleted_revision : Bool

pub data CanonicalPayload : Type 0 where
  final_payload :
      (schema_version : String) (revision : ℕ) (files : List ManifestFileEntry)
      (tombstones : List TombstonePayload)
      → CanonicalPayload
  intent_payload :
      (schema_version vault_id : String) (base_revision : ℕ) (created_by_device : String)
      (created_at : ℕ) (files : List ManifestFileEntry) (tombstones : List TombstonePayload)
      → CanonicalPayload

-- `(item.get("local_delete_seq", 0), item["file_id"])`
abbrev pub payload_leb : TombstonePayload → TombstonePayload → Bool
payload_leb a b = seq_leb a.record_ b.record_

module _ (nfc : String → String) where
  unfoldable pub normalize_file_entry : ManifestFileEntry → ManifestFileEntry
  normalize_file_entry r = record r { path = nfc r.path }

  abbrev keeps_revision : ManifestHashPurpose → TombstoneRecord → Bool
  keeps_revision final r = true
  keeps_revision intent r = is_some r.deleted_revision

  unfoldable pub normalize_tombstone : ManifestHashPurpose → TombstoneRecord → TombstonePayload
  normalize_tombstone purpose r = record {
    record_ = record r {
      last_known_path = elim r.last_known_path [ none ↦ none | some p ↦ some (nfc p) ];
    };
    has_deleted_revision = keeps_revision purpose r;
  }

  abbrev canonical_files : ManifestRecord → List ManifestFileEntry
  canonical_files manifest = sorted entry_leb (map normalize_file_entry manifest.files)

  abbrev canonical_tombstones : ManifestHashPurpose → ManifestRecord → List TombstonePayload
  canonical_tombstones purpose manifest =
      sorted payload_leb (map (normalize_tombstone purpose) manifest.tombstones)

  unfoldable pub canonical_manifest_payload :
      ManifestRecord → ManifestHashPurpose → CanonicalPayload
  unfolding sorted normalize_file_entry normalize_tombstone
  canonical_manifest_payload manifest final =
      final_payload manifest.schema_version manifest.revision (canonical_files manifest)
        (canonical_tombstones final manifest)
  canonical_manifest_payload manifest intent =
      intent_payload manifest.schema_version manifest.vault_id manifest.base_revision
        manifest.created_by_device manifest.created_at (canonical_files manifest)
        (canonical_tombstones intent manifest)

module _ (nfc : String → String) (digest : CanonicalPayload → String) where
  unfoldable pub compute_manifest_summary_hash : ManifestRecord → String
  unfolding canonical_manifest_payload
  compute_manifest_summary_hash manifest = digest (canonical_manifest_payload nfc manifest final)

  unfoldable pub compute_intent_manifest_hash : ManifestRecord → String
  unfolding canonical_manifest_payload
  compute_intent_manifest_hash manifest = digest (canonical_manifest_payload nfc manifest intent)

  unfoldable pub with_computed_manifest_summary : ManifestRecord → Result ManifestRecord
  unfolding compute_manifest_summary_hash
  with_computed_manifest_summary manifest =
      new_manifest_record
        (record manifest { summary_hash = compute_manifest_summary_hash manifest })

  unfoldable pub finalize_manifest_revision :
      ManifestRecord → (revision : ℕ) → Result ManifestRecord
  unfolding with_computed_manifest_summary
  finalize_manifest_revision manifest revision = do
    revised ←
        new_manifest_record (record manifest { revision = revision; summary_hash = "placeholder" })
    with_computed_manifest_summary revised

  unfoldable pub build_empty_vault_manifest_summary : String
  unfolding compute_manifest_summary_hash
  build_empty_vault_manifest_summary = compute_manifest_summary_hash (record {
    vault_id = "__empty_vault__";
    revision = 0;
    base_revision = 0;
    created_by_device = "__system__";
    created_at = 0;
    files = [];
    tombstones = [];
    summary_hash = "placeholder";
    schema_version = "v1";
    meta = none;
  })
