-- ===== src/Server/Vault.antt =====
-- sync_store.py: the records of the server's state. The key of a manifest is `str(revision)`.
use personal_knowledge_base.Base.{ℕ, String, Bool, true, Option, none, some, List, [], max}
use personal_knowledge_base.Base.Dict.{Dict, get, put}
use personal_knowledge_base.Models.{ManifestRecord}

pub data FileVersionSource : Type 0 where
  commit_success manual_checkpoint manual_meeting_checkpoint restore : FileVersionSource

pub record FileVersionRecord : Type 0 where
  pub version_id : String
  pub file_id : String
  pub path_at_revision : String
  pub revision : ℕ
  pub content_hash : String
  pub blob_id : String
  pub size : ℕ
  pub mtime : ℕ
  pub created_at : ℕ
  pub created_by_device : String
  pub source : FileVersionSource
  pub is_pinned : Bool
  pub version_label : Option String
  pub change_note : Option String

pub record RetentionPolicy : Type 0 where
  pub keep_latest : ℕ
  pub keep_pinned : Bool

pub record FileVersions : Type 0 where
  pub records : Dict FileVersionRecord
  pub by_file_id : Dict (List String)
  pub retention_policy : RetentionPolicy

-- `kind` and `reclaimed_file_ids` are written by the tombstone GC only.
pub record ServerCommit : Type 0 where
  pub commit_intent_id : String
  pub intent_manifest_hash : String
  pub revision : ℕ
  pub created_by_device : String
  pub committed_at_ms : ℕ
  pub kind : Option String
  pub reclaimed_file_ids : List String

pub record BlockedDevice : Type 0 where
  pub device_id : String
  pub acked_revision : ℕ
  pub required_revision : ℕ

pub record TombstoneGcItem : Type 0 where
  pub file_id : String
  pub deleted_revision : Option ℕ
  pub deleted_at : ℕ
  pub last_known_path : Option String
  pub deleted_by_device : Option String

pub record BlockedTombstone : Type 0 where
  pub item : TombstoneGcItem
  pub reason : String
  pub retention_remaining_ms : ℕ
  pub blocked_by_devices : List BlockedDevice

pub record GcResult : Type 0 where
  pub vault_id : String
  pub run_id : String
  pub ran_at_ms : ℕ
  pub base_revision : ℕ
  pub new_revision : Option ℕ
  pub head_revision : ℕ
  pub active_device_ids : List String
  pub min_retention_ms : ℕ
  pub inactive_after_ms : ℕ
  pub reclaimed_tombstones : List TombstoneGcItem
  pub blocked_tombstones : List BlockedTombstone
  pub reason : String

pub record ServerVault : Type 0 where
  pub head_revision : ℕ
  pub manifest_summary : Option String
  pub manifests : Dict ManifestRecord
  pub commits : Dict ServerCommit
  pub acks : Dict ℕ
  pub gc_runs : List GcResult
  pub file_versions : FileVersions

-- `DEFAULT_FILE_VERSION_RETENTION_POLICY`
abbrev pub default_retention_policy : RetentionPolicy
default_retention_policy = record { keep_latest = 50; keep_pinned = true }

-- What `_ensure_vault` writes for a vault that is not there.
abbrev pub empty_vault : ServerVault
empty_vault = record {
  head_revision = 0;
  manifest_summary = none;
  manifests = [];
  commits = [];
  acks = [];
  gc_runs = [];
  file_versions = record {
    records = [];
    by_file_id = [];
    retention_policy = default_retention_policy;
  };
}

pub record ServerDevice : Type 0 where
  pub device_name : Option String
  pub platform : Option String
  pub app_version : Option String
  pub protocol_version : Option String
  pub registered_at_ms : Option ℕ
  pub last_seen_at_ms : Option ℕ
  pub revoked : Bool
  pub revoked_at_ms : Option ℕ
  pub user_id : Option String

pub record ServerBlob : Type 0 where
  pub blob_id : String
  pub vault_id : String
  pub object_key : String
  pub storage_backend : String
  pub status : String
  pub encrypted_size : ℕ
  pub content_hash : String
  pub encrypted_sha256 : Option String
  pub uploaded_at_ms : ℕ

pub record ServerState : Type 0 where
  pub devices : Dict ServerDevice
  pub vaults : Dict ServerVault
  pub blobs : Dict ServerBlob

-- `_ensure_vault`: the vault, or a new one. It is stored when the method saves the state.
unfoldable pub ensure_vault : ServerState → (vault_id : String) → ServerVault
ensure_vault state vault_id = elim (get state.vaults vault_id) [
  | none ↦ empty_vault
  | some vault ↦ vault
]

abbrev pub save_vault : ServerState → String → ServerVault → ServerState
save_vault state vault_id vault = record state { vaults = put state.vaults vault_id vault }

abbrev pub or_zero : Option ℕ → ℕ
or_zero none = 0
or_zero (some n) = n

-- `vault["acks"][device] = max(vault["acks"].get(device, 0), revision)`
unfoldable pub acknowledge : ServerVault → (device_id : String) → (revision : ℕ) → ServerVault
acknowledge vault device_id revision = record vault {
  acks = put vault.acks device_id (max (or_zero (get vault.acks device_id)) revision);
}
