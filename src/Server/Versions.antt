-- ===== src/Server/Versions.antt =====
-- sync_store.py: the versions of files that a commit records, and how many are kept.
use personal_knowledge_base.Base.{
  ℕ, ◌+◌, nat_eq, ltb, String, ◌==◌, Bool, false, not, ◌&&◌, Option, none, some, List, [], ◌∷◌,
  ◌++◌, any, map, is_some, if◌then◌else◌,
}
use personal_knowledge_base.Base.Index.{text_set}
use personal_knowledge_base.Base.Text.{str_leb}
use personal_knowledge_base.Base.Dict.{Dict, get, put, delete}
use personal_knowledge_base.Base.Sort.{sorted}
use personal_knowledge_base.Base.Exec.{Result, ok, raise_if, ◌>>=◌, ◌>>◌, store_error}
use personal_knowledge_base.Models.{ManifestFileEntry, ManifestRecord}
use personal_knowledge_base.Server.Vault.{
  FileVersionSource, commit_success, FileVersionRecord, FileVersions, ServerVault,
}
use personal_knowledge_base.Paths.Decimal.{decimal}

pub record BlobRef : Type 0 where
  pub blob_id : String
  pub file_id : String

pub record FileVersionDirective : Type 0 where
  pub file_id : String
  pub source : FileVersionSource
  pub version_label : Option String
  pub change_note : Option String
  pub is_pinned : Bool

-- An optional text that is given has to be non-empty.
abbrev pub is_empty_text : Option String → Bool
is_empty_text none = false
is_empty_text (some s) = s == ""

unfoldable pub parse_file_version_directives :
    Dict FileVersionDirective → List FileVersionDirective → Result (Dict FileVersionDirective)
parse_file_version_directives directives [] = ok directives
parse_file_version_directives directives (d ∷ rest) =
    let parsed = parse_file_version_directives (put directives d.file_id d) rest in
    do
      raise_if (d.file_id == "")
          (store_error "invalid_request" "file_id must be a non-empty string")
      raise_if (is_some (get directives d.file_id))
          (store_error "invalid_request" "file_version_directives file_id values must be unique")
      raise_if (is_empty_text d.version_label)
          (store_error "invalid_request" "version_label must be a non-empty string when provided")
      raise_if (is_empty_text d.change_note)
          (store_error "invalid_request" "change_note must be a non-empty string when provided")
      parsed

-- The files of a manifest by `file_id`; the last entry of one wins.
unfoldable pub files_by_id :
    Dict ManifestFileEntry → List ManifestFileEntry → Dict ManifestFileEntry
files_by_id d [] = d
files_by_id d (r ∷ rest) = files_by_id (put d r.file_id r) rest

unfoldable pub previous_manifest_file_by_id :
    ServerVault → (base_revision : ℕ) → Dict ManifestFileEntry
unfolding files_by_id
previous_manifest_file_by_id vault base_revision =
    if nat_eq base_revision 0 then [] else elim (get vault.manifests (decimal base_revision)) [
      | none ↦ []
      | some previous ↦ files_by_id [] previous.files
    ]

-- By revision, the latest first, then by id.
unfoldable pub version_leb : FileVersionRecord → FileVersionRecord → Bool
version_leb a b =
    if nat_eq a.revision b.revision
    then str_leb a.version_id b.version_id
    else ltb b.revision a.revision

-- The loop of the retention policy: the records that are kept, and those that are dropped.
unfoldable pub retain_loop :
    (keep_pinned : Bool) (keep_latest regular_count : ℕ)
    → List FileVersionRecord
    → List FileVersionRecord × List FileVersionRecord
retain_loop keep_pinned keep_latest count [] = ([], [])
retain_loop keep_pinned keep_latest count (r ∷ rest) =
    let after_pinned = retain_loop keep_pinned keep_latest count rest in
    let after_regular = retain_loop keep_pinned keep_latest (count + 1) rest in
    if keep_pinned && r.is_pinned
    then (r ∷ after_pinned.0, after_pinned.1)
    else if ltb count keep_latest
    then (r ∷ after_regular.0, after_regular.1)
    else (after_pinned.0, r ∷ after_pinned.1)

abbrev pub version_id_of : FileVersionRecord → String
version_id_of r = r.version_id

unfoldable pub without_records :
    Dict FileVersionRecord → List FileVersionRecord → Dict FileVersionRecord
without_records records [] = records
without_records records (r ∷ rest) = without_records (delete records r.version_id) rest

-- The records that the ids name.
unfoldable pub listed_records : Dict FileVersionRecord → List String → List FileVersionRecord
listed_records records [] = []
listed_records records (i ∷ rest) = elim (get records i) [
  | none ↦ listed_records records rest
  | some r ↦ r ∷ listed_records records rest
]

-- A `keep_latest` that is not positive stands for the default.
abbrev pub effective_keep : ℕ → ℕ
effective_keep n = if nat_eq n 0 then 50 else n

unfoldable pub apply_file_version_retention_policy :
    FileVersions → (file_id : String) → FileVersions
unfolding retain_loop without_records listed_records sorted version_leb
apply_file_version_retention_policy versions file_id = elim (get versions.by_file_id file_id) [
  | none ↦ versions
  | some version_ids ↦
      let split =
        retain_loop versions.retention_policy.keep_pinned
          (effective_keep versions.retention_policy.keep_latest) 0
          (sorted version_leb (listed_records versions.records version_ids)) in
      record versions {
        records = without_records versions.records split.1;
        by_file_id = put versions.by_file_id file_id (map version_id_of split.0);
      }
]

abbrev same_option : Option ManifestFileEntry → ManifestFileEntry → Bool
same_option none entry = false
same_option (some previous) entry =
    previous.content_hash == entry.content_hash && previous.blob_id == entry.blob_id

abbrev directive_source : Option FileVersionDirective → FileVersionSource
directive_source none = commit_success
directive_source (some d) = d.source

abbrev directive_pin : Option FileVersionDirective → Bool
directive_pin none = false
directive_pin (some d) = d.is_pinned

abbrev directive_label : Option FileVersionDirective → Option String
directive_label none = none
directive_label (some d) = d.version_label

abbrev directive_note : Option FileVersionDirective → Option String
directive_note none = none
directive_note (some d) = d.change_note

abbrev ids_or_empty : Option (List String) → List String
ids_or_empty none = []
ids_or_empty (some ids) = ids

abbrev pub directive_ids : Dict FileVersionDirective → List String
directive_ids = map (λ (entry : String × FileVersionDirective). entry.0)

-- `name` stands for `_file_version_id`, a digest.
module _
    (name : (vault_id file_id : String) (revision : ℕ) (blob_id : String)
      → FileVersionSource
      → String)
    (manifest : ManifestRecord) where
  version_of : ManifestFileEntry → Option FileVersionDirective → FileVersionRecord
  version_of item directive = record {
    version_id =
        name manifest.vault_id item.file_id manifest.revision item.blob_id
          (directive_source directive);
    file_id = item.file_id;
    path_at_revision = item.path;
    revision = manifest.revision;
    content_hash = item.content_hash;
    blob_id = item.blob_id;
    size = item.size;
    mtime = item.mtime;
    created_at = manifest.created_at;
    created_by_device = manifest.created_by_device;
    source = directive_source directive;
    is_pinned = directive_pin directive;
    version_label = directive_label directive;
    change_note = directive_note directive;
  }

  unfoldable pub append_version : FileVersionRecord → FileVersions → FileVersions
  unfolding apply_file_version_retention_policy
  append_version r versions =
      let ids = ids_or_empty (get versions.by_file_id r.file_id) in
      let listed = if any (λ i. i == r.version_id) ids then ids else ids ++ r.version_id ∷ [] in
      if is_some (get versions.records r.version_id)
      then versions
      else apply_file_version_retention_policy
          (record versions {
            records = put versions.records r.version_id r;
            by_file_id = put versions.by_file_id r.file_id listed;
          })
          r.file_id

  -- One round of the loop over the target files.
  unfoldable pub append_file_version :
      (active previous : Dict ManifestFileEntry)
      → Dict FileVersionDirective
      → String
      → FileVersions
      → FileVersions
  unfolding append_version version_of
  append_file_version active previous directives file_id versions = elim (get active file_id) [
    | none ↦ versions
    | some item ↦
        let directive = get directives file_id in
        if not (is_some directive) && same_option (get previous file_id) item
        then versions
        else append_version (version_of item directive) versions
  ]

  unfoldable pub append_loop :
      (active previous : Dict ManifestFileEntry)
      → Dict FileVersionDirective
      → List String
      → FileVersions
      → FileVersions
  unfolding append_file_version
  append_loop active previous directives [] versions = versions
  append_loop active previous directives (file_id ∷ rest) versions =
      append_loop active previous directives rest
        (append_file_version active previous directives file_id versions)

  unfoldable pub append_file_versions_for_commit :
      ServerVault → List BlobRef → List FileVersionDirective → Result ServerVault
  unfolding append_loop parse_file_version_directives files_by_id text_set
  append_file_versions_for_commit vault blob_refs given = do
    directives ← parse_file_version_directives [] given
    let active = files_by_id [] manifest.files
    let previous = previous_manifest_file_by_id vault manifest.base_revision
    let named = directive_ids directives
    raise_if (any (λ i. not (is_some (get active i))) named) (
        store_error "invalid_request"
          "file_version_directives reference files not present in manifest")
    let referenced = map (λ (r : BlobRef). r.file_id) blob_refs
    ok (record vault {
      file_versions =
          append_loop active previous directives (sorted str_leb (text_set (referenced ++ named)))
            vault.file_versions;
    })
