-- ===== src/Server/Commits.antt =====
-- sync_store.py: commits, the resolution of an interrupted commit, and acknowledgements.
use personal_knowledge_base.Base.{
  ℕ, ◌+◌, nat_eq, String, ◌==◌, not, Option, none, some, List, [], ◌∷◌, is_some, if◌then◌else◌,
}
use personal_knowledge_base.Base.Dict.{Dict, get, put}
use personal_knowledge_base.Base.Exec.{
  Result, ok, raise, raise_if, ◌>>=◌, ◌>>◌, store_error, commit_conflict,
}
use personal_knowledge_base.Models.{ManifestRecord}
use personal_knowledge_base.Manifest.{CanonicalPayload}
use personal_knowledge_base.Paths.Decimal.{decimal}
use personal_knowledge_base.Server.Vault.{
  FileVersionSource, ServerCommit, ServerVault, ServerBlob, ServerState, ensure_vault, save_vault,
  or_zero, acknowledge,
}
use personal_knowledge_base.Server.Manifests.{finalize_manifest_payload}
use personal_knowledge_base.Server.Versions.{
  BlobRef, FileVersionDirective, append_file_versions_for_commit,
}

pub record CommitRequest : Type 0 where
  pub commit_intent_id : String
  pub base_revision : ℕ
  pub intent_manifest_hash : String
  pub manifest : ManifestRecord
  pub created_by_device : Option String
  pub blob_refs : List BlobRef
  pub file_version_directives : List FileVersionDirective

pub record CommitResponse : Type 0 where
  pub new_revision : ℕ
  pub head_manifest_summary : Option String
  pub acked_revision_for_device : ℕ

-- The first that is given and not empty: `a or b or c`.
abbrev pub truthy_or : Option String → String → String
truthy_or none other = other
truthy_or (some s) other = if s == "" then other else s

abbrev text_or_empty : Option String → String
text_or_empty none = ""
text_or_empty (some s) = s

unfoldable pub committing_device : CommitRequest → (auth_device_id : Option String) → String
committing_device request auth_device_id =
    truthy_or request.created_by_device
      (truthy_or (some request.manifest.created_by_device) (text_or_empty auth_device_id))

unfoldable pub require_commit_blobs_exist : Dict ServerBlob → List BlobRef → Result (Unit {0})
require_commit_blobs_exist blobs [] = ok tt
require_commit_blobs_exist blobs (r ∷ rest) = do
  raise_if (r.blob_id == "") (store_error "invalid_request" "blob_id must be a non-empty string")
  raise_if (r.file_id == "") (store_error "invalid_request" "file_id must be a non-empty string")
  raise_if (not (is_some (get blobs r.blob_id)))
      (store_error "blob_not_uploaded" "Commit references a blob that has not been uploaded")
  require_commit_blobs_exist blobs rest

abbrev pub conflict : {A : Type 0} → ServerVault → String → Result A
conflict vault code = raise (commit_conflict code vault.head_revision vault.manifest_summary)

abbrev pub response_of :
    ServerVault → (device : String) → (revision : ℕ) → Option String → CommitResponse
response_of vault device revision summary = record {
  new_revision = revision;
  head_manifest_summary = summary;
  acked_revision_for_device = or_zero (get vault.acks device);
}

-- A commit whose `commit_intent_id` the vault has: the same commit is answered again.
unfoldable pub repeat_commit :
    ServerVault
    → CommitRequest
    → (device : String) → ServerCommit
    → Result (CommitResponse × ServerVault)
unfolding acknowledge
repeat_commit vault request device existing =
    let acked = acknowledge vault device existing.revision in
    if existing.intent_manifest_hash == request.intent_manifest_hash
    then ok (response_of acked device existing.revision vault.manifest_summary, acked)
    else conflict vault "manifest_conflict"

module _ (nfc : String → String) (digest : CanonicalPayload → String)
    (name : (vault_id file_id : String) (revision : ℕ) (blob_id : String)
      → FileVersionSource
      → String) where
  -- A new commit: its revision is the one after the head.
  unfoldable pub append_commit :
      Dict ServerBlob
      → ServerVault
      → CommitRequest
      → (device : String) → (now_ms : ℕ) → Result (CommitResponse × ServerVault)
  unfolding acknowledge finalize_manifest_payload append_file_versions_for_commit
      require_commit_blobs_exist
  append_commit blobs vault request device now_ms = do
    raise_if (not (nat_eq request.base_revision vault.head_revision))
        (commit_conflict "base_revision_conflict" vault.head_revision vault.manifest_summary)
    require_commit_blobs_exist blobs request.blob_refs
    let new_revision = vault.head_revision + 1
    finalized ← finalize_manifest_payload nfc digest request.manifest new_revision
    versioned ←
        append_file_versions_for_commit name finalized
          (record vault {
            manifests = put vault.manifests (decimal new_revision) finalized;
            head_revision = new_revision;
            manifest_summary = some finalized.summary_hash;
          })
          request.blob_refs request.file_version_directives
    let committed = record versioned {
      commits = put versioned.commits request.commit_intent_id (record {
        commit_intent_id = request.commit_intent_id;
        intent_manifest_hash = request.intent_manifest_hash;
        revision = new_revision;
        created_by_device = device;
        committed_at_ms = now_ms;
        kind = none;
        reclaimed_file_ids = [];
      });
    }
    let acked = acknowledge committed device new_revision
    ok (response_of acked device new_revision (some finalized.summary_hash), acked)

  -- `commit_mutation`
  unfoldable pub commit_mutation :
      Dict ServerBlob
      → ServerVault
      → CommitRequest
      → (device : String) → (now_ms : ℕ) → Result (CommitResponse × ServerVault)
  unfolding append_commit repeat_commit
  commit_mutation blobs vault request device now_ms =
      elim (get vault.commits request.commit_intent_id) [
        | some existing ↦ repeat_commit vault request device existing
        | none ↦ append_commit blobs vault request device now_ms
      ]

  unfoldable pub create_commit :
      ServerState
      → (vault_id : String) → CommitRequest
      → (auth_device_id : Option String) → (now_ms : ℕ) → Result (CommitResponse × ServerState)
  unfolding commit_mutation committing_device ensure_vault
  create_commit state vault_id request auth_device_id now_ms = do
    raise_if (request.commit_intent_id == "")
        (store_error "invalid_request" "commit_intent_id must be a non-empty string")
    raise_if (request.intent_manifest_hash == "")
        (store_error "invalid_request" "intent_manifest_hash must be a non-empty string")
    raise_if (not (request.manifest.vault_id == vault_id))
        (store_error "invalid_manifest" "manifest.vault_id must match path vault_id")
    raise_if (not (nat_eq request.manifest.base_revision request.base_revision))
        (store_error "invalid_manifest" "manifest.base_revision must match request base_revision")
    let device = committing_device request auth_device_id
    raise_if (device == "") (store_error "invalid_request" "created_by_device is required")
    done ← commit_mutation state.blobs (ensure_vault state vault_id) request device now_ms
    ok (done.0, save_vault state vault_id done.1)

pub data IntentStatus : Type 0 where
  not_found mismatched : IntentStatus
  found : (matched_revision : ℕ) → IntentStatus

pub record ResolveResponse : Type 0 where
  pub status : IntentStatus
  pub observed_head_revision : ℕ
  pub head_manifest_summary : Option String

unfoldable pub intent_status :
    ServerVault → (commit_intent_id intent_manifest_hash : String) → IntentStatus
intent_status vault commit_intent_id intent_manifest_hash =
    elim (get vault.commits commit_intent_id) [
      | none ↦ not_found
      | some commit ↦
          if commit.intent_manifest_hash == intent_manifest_hash
          then found commit.revision
          else mismatched
    ]

unfoldable pub resolve_commit_intent :
    ServerState → (vault_id commit_intent_id intent_manifest_hash : String) → Result ResolveResponse
unfolding intent_status ensure_vault
resolve_commit_intent state vault_id commit_intent_id intent_manifest_hash = do
  raise_if (commit_intent_id == "")
      (store_error "invalid_request" "commit_intent_id must be a non-empty string")
  raise_if (intent_manifest_hash == "")
      (store_error "invalid_request" "intent_manifest_hash must be a non-empty string")
  let vault = ensure_vault state vault_id
  ok (record {
    status = intent_status vault commit_intent_id intent_manifest_hash;
    observed_head_revision = vault.head_revision;
    head_manifest_summary = vault.manifest_summary;
  })
