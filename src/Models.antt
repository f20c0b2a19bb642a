-- ===== src/Models.antt =====
-- packages/vault-core/src/vault_core/models.py: the records of the vault. A dataclass is a record,
-- and `new_...` is its constructor call with the checks of `__post_init__`. A field that the checks
-- hold to the non-negative integers is a number, so that the check is its type.
use personal_knowledge_base.Base.{
  ℕ, String, ◌==◌, Bool, true, false, not, ◌&&◌, ◌||◌, Option, none, some, List, nat_eq,
}
use personal_knowledge_base.Base.Exec.{Result, ok, value_error, raise_if, ◌>>◌}

-- A JSON value; `neg n` is -(n + 1), and a float is kept as its text.
mutual
  pub data Json : Type 0 where
    null : Json
    bool : Bool → Json
    num : ℕ → Json
    neg : ℕ → Json
    real : String → Json
    str : String → Json
    arr : Items → Json
    obj : Fields → Json

  pub data Items : Type 0 where
    nil : Items
    cons : Json → Items → Items

  pub data Fields : Type 0 where
    end : Fields
    field : String → Json → Fields → Fields

-- `meta: Optional[Dict[str, Any]]`
abbrev pub Meta : Type 0
Meta = Option Fields

pub data FileType : Type 0 where
  note attachment ai_wiki ai_index ai_agents : FileType

pub data FileStatus : Type 0 where
  active deleted conflict_copy : FileStatus

abbrev pub is_active : FileStatus → Bool
is_active active = true
is_active deleted = false
is_active conflict_copy = false

abbrev pub is_deleted : FileStatus → Bool
is_deleted active = false
is_deleted deleted = true
is_deleted conflict_copy = false

abbrev pub is_conflict_copy : FileStatus → Bool
is_conflict_copy active = false
is_conflict_copy deleted = false
is_conflict_copy conflict_copy = true

abbrev pub type_eq : FileType → FileType → Bool
type_eq note note = true
type_eq attachment attachment = true
type_eq ai_wiki ai_wiki = true
type_eq ai_index ai_index = true
type_eq ai_agents ai_agents = true
type_eq _ _ = false

pub record FileRecord : Type 0 where
  pub file_id : String
  pub path : String
  pub type : FileType
  pub status : FileStatus
  pub updated_at : ℕ
  pub content_hash : Option String
  pub last_known_revision : Option ℕ
  pub conflict_source_file_id : Option String
  pub meta : Meta

-- `not value`, for an optional text
abbrev pub is_falsy : Option String → Bool
is_falsy none = true
is_falsy (some s) = s == ""

unfoldable pub new_file_record : FileRecord → Result FileRecord
new_file_record self = do
  raise_if (self.file_id == "") (value_error "file_id must be non-empty" List.[])
  raise_if (self.path == "") (value_error "path must be non-empty" List.[])
  raise_if (is_conflict_copy self.status && is_falsy self.conflict_source_file_id)
      (value_error "conflict_copy records must include conflict_source_file_id" List.[])
  ok self

pub record FileMapDocument : Type 0 where
  pub vault_id : String
  pub updated_at : ℕ
  pub files : List FileRecord
  pub schema_version : String
  pub meta : Meta

unfoldable pub new_file_map_document : FileMapDocument → Result FileMapDocument
new_file_map_document self = do
  raise_if (not (self.schema_version == "v1")) (value_error "unsupported schema_version" List.[])
  raise_if (self.vault_id == "") (value_error "vault_id must be non-empty" List.[])
  ok self

unfoldable pub replace_files : FileMapDocument → List FileRecord → ℕ → Result FileMapDocument
unfolding new_file_map_document
replace_files self files updated_at =
    new_file_map_document (record self { updated_at = updated_at; files = files })

pub record TombstoneRecord : Type 0 where
  pub file_id : String
  pub deleted_revision : Option ℕ
  pub deleted_at : ℕ
  pub local_delete_seq : ℕ
  pub last_known_path : Option String
  pub deleted_by_device : Option String
  pub meta : Meta

-- `value is not None and value <= 0`
abbrev pub is_zero : Option ℕ → Bool
is_zero none = false
is_zero (some n) = nat_eq n 0

unfoldable pub new_tombstone_record : TombstoneRecord → Result TombstoneRecord
new_tombstone_record self = do
  raise_if (self.file_id == "") (value_error "file_id must be non-empty" List.[])
  raise_if (is_zero self.deleted_revision)
      (value_error "deleted_revision must be a positive integer" List.[])
  ok self

pub record ManifestFileEntry : Type 0 where
  pub file_id : String
  pub path : String
  pub type : FileType
  pub content_hash : String
  pub blob_id : String
  pub size : ℕ
  pub mtime : ℕ
  pub mime_type : Option String
  pub meta : Meta

unfoldable pub new_manifest_file_entry : ManifestFileEntry → Result ManifestFileEntry
new_manifest_file_entry self = do
  raise_if (self.file_id == "") (value_error "file_id must be non-empty" List.[])
  raise_if (self.path == "") (value_error "path must be non-empty" List.[])
  raise_if (self.content_hash == "") (value_error "content_hash must be non-empty" List.[])
  raise_if (self.blob_id == "") (value_error "blob_id must be non-empty" List.[])
  ok self

pub record ManifestRecord : Type 0 where
  pub vault_id : String
  pub revision : ℕ
  pub base_revision : ℕ
  pub created_by_device : String
  pub created_at : ℕ
  pub files : List ManifestFileEntry
  pub tombstones : List TombstoneRecord
  pub summary_hash : String
  pub schema_version : String
  pub meta : Meta

unfoldable pub new_manifest_record : ManifestRecord → Result ManifestRecord
new_manifest_record self = do
  raise_if (not (self.schema_version == "v1")) (value_error "unsupported schema_version" List.[])
  raise_if (self.vault_id == "") (value_error "vault_id must be non-empty" List.[])
  raise_if (self.created_by_device == "")
      (value_error "created_by_device must be non-empty" List.[])
  raise_if (self.summary_hash == "") (value_error "summary_hash must be non-empty" List.[])
  ok self

pub data SummaryStatus : Type 0 where
  valid missing stale : SummaryStatus

abbrev pub is_valid : SummaryStatus → Bool
is_valid valid = true
is_valid missing = false
is_valid stale = false

pub record VaultStateRecord : Type 0 where
  pub vault_id : String
  pub last_applied_revision : ℕ
  pub remote_head_revision : ℕ
  pub acked_revision : ℕ
  pub pending_ack_to_server : List ℕ
  pub commit_in_progress : Bool
  pub last_manifest_summary : Option String
  pub last_manifest_summary_status : SummaryStatus
  pub local_delete_sequence : ℕ
  pub has_unresolved_conflicts : Bool
  pub schema_version : String
  pub meta : Meta

pub data CommitIntentStatus : Type 0 where
  prepared submitted acknowledged : CommitIntentStatus

pub record CommitIntentJournalRecord : Type 0 where
  pub vault_id : String
  pub commit_intent_id : String
  pub intent_manifest_hash : String
  pub base_revision : ℕ
  pub created_by_device : String
  pub status : CommitIntentStatus
  pub created_at : ℕ
  pub updated_at : ℕ
  pub intent_delete_seq_upper_bound : Option ℕ

pub data SyncApplyPhase : Type 0 where
  preparing staging materializing filemap_rewrite finalizing : SyncApplyPhase

pub record SyncApplyJournalRecord : Type 0 where
  pub vault_id : String
  pub journal_id : String
  pub target_revision : ℕ
  pub target_manifest_hash : String
  pub phase : SyncApplyPhase
  pub created_at : ℕ
  pub updated_at : ℕ
  pub ops_hash : Option String

abbrev any_zero : List ℕ → Bool
any_zero List.[] = false
any_zero (List.◌∷◌ n rest) = nat_eq n 0 || any_zero rest

unfoldable pub new_vault_state_record : VaultStateRecord → Result VaultStateRecord
new_vault_state_record self = do
  raise_if (not (self.schema_version == "v1")) (value_error "unsupported schema_version" List.[])
  raise_if (self.vault_id == "") (value_error "vault_id must be non-empty" List.[])
  raise_if (any_zero self.pending_ack_to_server)
      (value_error "pending_ack_to_server revision must be a positive integer" List.[])
  ok self

unfoldable pub new_commit_intent_journal_record :
    CommitIntentJournalRecord → Result CommitIntentJournalRecord
new_commit_intent_journal_record self = do
  raise_if (self.vault_id == "") (value_error "vault_id must be non-empty" List.[])
  raise_if (self.commit_intent_id == "") (value_error "commit_intent_id must be non-empty" List.[])
  raise_if (self.intent_manifest_hash == "")
      (value_error "intent_manifest_hash must be non-empty" List.[])
  raise_if (self.created_by_device == "")
      (value_error "created_by_device must be non-empty" List.[])
  raise_if (is_zero self.intent_delete_seq_upper_bound)
      (value_error "intent_delete_seq_upper_bound must be a positive integer" List.[])
  ok self
