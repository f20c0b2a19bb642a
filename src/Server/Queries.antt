-- ===== src/Server/Queries.antt =====
-- sync_store.py: the head and the manifests of a vault, the blobs that it has, and the edit of a file version.
use personal_knowledge_base.Base.{
  ℕ, String, ◌==◌, Bool, false, not, ◌||◌, Option, none, some, List, [], ◌∷◌, any, filter, length,
  nat_eq, is_some,
}
use personal_knowledge_base.Base.Dict.{get, put}
use personal_knowledge_base.Base.Exec.{Result, ok, raise_if, require, ◌>>=◌, ◌>>◌, store_error}
use personal_knowledge_base.Models.{ManifestRecord}
use personal_knowledge_base.Paths.Decimal.{decimal}
use personal_knowledge_base.Server.Vault.{FileVersionRecord, ServerState, ensure_vault, save_vault}
use personal_knowledge_base.Server.Versions.{is_empty_text}

-- The response: the head and its summary.
unfoldable pub get_vault_head :
    ServerState → (vault_id : String) → (ℕ × Option String) × ServerState
unfolding ensure_vault
get_vault_head state vault_id =
    let vault = ensure_vault state vault_id in
    ((vault.head_revision, vault.manifest_summary), save_vault state vault_id vault)

unfoldable pub get_manifest :
    ServerState → (vault_id : String) → (revision : ℕ) → Option ManifestRecord
unfolding ensure_vault
get_manifest state vault_id revision =
    get (ensure_vault state vault_id).manifests (decimal revision)

unfoldable pub text_repeats : List String → Bool
text_repeats [] = false
text_repeats (s ∷ rest) = any (λ t. t == s) rest || text_repeats rest

unfoldable pub require_unique_strings : List String → Result (List String)
unfolding text_repeats
require_unique_strings given = do
  raise_if (nat_eq (length given) 0)
      (store_error "invalid_request" "the value must be a non-empty list")
  raise_if (any (λ s. s == "") given)
      (store_error "invalid_request" "items must be non-empty strings")
  raise_if (text_repeats given) (store_error "invalid_request" "the values must be unique")
  ok given

-- The response: the blobs that the server has, and those that it lacks.
unfoldable pub check_blobs :
    ServerState → (vault_id : String) → List String → Result (List String × List String)
unfolding require_unique_strings
check_blobs state vault_id given = do
  raise_if (vault_id == "") (store_error "invalid_vault_id" "vault_id must be non-empty")
  blob_ids ← require_unique_strings given
  let existing = filter (λ i. is_some (get state.blobs i)) blob_ids
  ok (existing, filter (λ i. not (any (λ j. j == i) existing)) blob_ids)

-- A key that the payload has, with its value, which may be null.
pub record FileVersionUpdate : Type 0 where
  pub version_label : Option (Option String)
  pub change_note : Option (Option String)
  pub is_pinned : Option (Option Bool)

abbrev given_or {ℓ} : {A : Type ℓ} → Option A → A → A
given_or none old = old
given_or (some new) old = new

abbrev pub is_blank_update : Option (Option String) → Bool
is_blank_update none = false
is_blank_update (some s) = is_empty_text s

abbrev pub is_empty_update : FileVersionUpdate → Bool
is_empty_update payload =
    not
      (is_some payload.version_label || (is_some payload.change_note || is_some payload.is_pinned))

-- A null pin is no pin.
abbrev pin_or : Option (Option Bool) → Bool → Bool
pin_or none old = old
pin_or (some none) old = false
pin_or (some (some b)) old = b

unfoldable pub updated_version : FileVersionUpdate → FileVersionRecord → FileVersionRecord
updated_version payload r = record r {
  version_label = given_or payload.version_label r.version_label;
  change_note = given_or payload.change_note r.change_note;
  is_pinned = pin_or payload.is_pinned r.is_pinned;
}

unfoldable pub update_file_version :
    ServerState
    → (vault_id version_id : String) → FileVersionUpdate
    → Result (FileVersionRecord × ServerState)
unfolding updated_version ensure_vault
update_file_version state vault_id version_id payload = do
  raise_if (version_id == "") (store_error "invalid_request" "version_id must be non-empty")
  raise_if (is_empty_update payload)
      (store_error "invalid_request" "file version update payload must not be empty")
  raise_if (is_blank_update payload.version_label)
      (store_error "invalid_request" "version_label must be a non-empty string when provided")
  raise_if (is_blank_update payload.change_note)
      (store_error "invalid_request" "change_note must be a non-empty string when provided")
  let vault = ensure_vault state vault_id
  r ←
      require (get vault.file_versions.records version_id)
        (store_error "file_version_not_found" "File version was not found")
  let updated = updated_version payload r
  ok (
    updated,
    save_vault state vault_id (record vault {
      file_versions = record vault.file_versions {
        records = put vault.file_versions.records version_id updated;
      };
    }),
  )
