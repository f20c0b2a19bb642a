-- ===== src/Server/Samples.antt =====
-- A note and a deletion, for the tests.
use personal_knowledge_base.Base.{ℕ, String, none, some, [], ◌∷◌}
use personal_knowledge_base.Base.Exec.{Result, ok, raise}
use personal_knowledge_base.Models.{note, ManifestRecord}
use personal_knowledge_base.Manifest.{CanonicalPayload}
use personal_knowledge_base.Server.Vault.{FileVersionSource}

abbrev pub same : String → String
same s = s

abbrev pub no_digest : CanonicalPayload → String
no_digest payload = "sha256:d"

abbrev pub version_name : String → String → ℕ → String → FileVersionSource → String
version_name vault_id file_id revision blob_id source = blob_id

abbrev pub manifest : ManifestRecord
manifest = record {
  vault_id = "v";
  revision = 0;
  base_revision = 0;
  created_by_device = "d1";
  created_at = 5;
  files =
      record {
        file_id = "f1";
        path = "a.md";
        type = note;
        content_hash = "sha256:1";
        blob_id = "b1";
        size = 3;
        mtime = 4;
        mime_type = none;
        meta = none;
      }
      ∷ [];
  tombstones =
      record {
        file_id = "f2";
        deleted_revision = none;
        deleted_at = 4;
        local_delete_seq = 1;
        last_known_path = some "b.md";
        deleted_by_device = some "d1";
        meta = none;
      }
      ∷ [];
  summary_hash = "pending";
  schema_version = "v1";
  meta = none;
}

abbrev pub value_or {ℓ} : {A : Type ℓ} → A → Result A → A
value_or a (ok b) = b
value_or a (raise e) = a
