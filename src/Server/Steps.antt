-- ===== src/Server/Steps.antt =====
-- sync_store.py: the methods that change a vault, as steps of the server's state.
pub mod Calls
pub mod Removals
pub mod Effects
use mathlib.Core.Path.{subst}
use personal_knowledge_base.Base.{
  ℕ, ◌+◌, ◌≤◌, suc, nat_eq, length, any, String, ◌==◌, eq_iff, ◌≡◌, ◌⊎◌, refl, ap, sym, ◌∙◌, Bool,
  true, false, not, Option, none, some, List, [], ◌∷◌, ◌++◌, append-nil, Bool-cases, arith,
  if◌then◌else◌, inl, inr,
}
use personal_knowledge_base.Base.Dict.{Dict, get, put, get-put, get-put_same}
use personal_knowledge_base.Base.Exec.{
  Result, ok, raise_if, require, ◌>>=◌, >>=_inv, ok-injective, raise_if-eq-ok, store_error,
}
use personal_knowledge_base.Models.{ManifestRecord}
use personal_knowledge_base.Manifest.{CanonicalPayload}
use personal_knowledge_base.Paths.Decimal.{decimal}
use personal_knowledge_base.Server.Vault.{
  FileVersionSource, ServerCommit, ServerVault, ServerDevice, ServerState, FileVersionRecord,
  GcResult, empty_vault, ensure_vault, save_vault,
}
use personal_knowledge_base.Server.Commits.{
  CommitRequest, CommitResponse, committing_device, commit_mutation, create_commit,
}
use personal_knowledge_base.Server.Collect.{GcRun, run_tombstone_gc_locked, run_tombstone_gc}
use personal_knowledge_base.Server.Queries.{
  get_vault_head, FileVersionUpdate, is_blank_update, is_empty_update, update_file_version,
}
use personal_knowledge_base.Server.Devices.{
  VaultDevice, ack_vault, ack_revisions, require_unique_positive_ints, list_vault_devices,
  live_device, touch_device, heartbeat_device,
}
use personal_knowledge_base.Server.Removal.{delete_device}
use personal_knowledge_base.Server.Effects.{Effect, keeps, Acks, same-Acks}
use personal_knowledge_base.Server.Effects.Commits.{Answers, commit_mutation-Effect}
use personal_knowledge_base.Server.Effects.Collect.{run_gc-Effect, ack_vault-Effect}
use personal_knowledge_base.Server.Log.{
  Represents, Grows, stays, grows, Effect-Represents, get_elem?, get_elem?-prefix,
}

pub ensure-save :
    (s : ServerState) (i j : String) (v : ServerVault)
    → ensure_vault (save_vault s i v) j ≡ (if i == j then v else ensure_vault s j)
unfolding ensure_vault
ensure-save s i j v = elim (Bool-cases (i == j)) [
  | inl e ↦ rw (ensure_vault, get-put s.vaults i j v, e) refl
  | inr e ↦ rw (ensure_vault, get-put s.vaults i j v, e) refl
]

pub nothing-Effect : (v : ServerVault) → Effect v v
nothing-Effect v = keeps refl refl refl refl (same-Acks v v refl)

-- The other vaults stay as they are.
pub save-Effect :
    (s : ServerState) (i j : String) (v : ServerVault)
    → Effect (ensure_vault s i) v
    → Effect (ensure_vault s j) (ensure_vault (save_vault s i v) j)
save-Effect s i j v effect = elim (Bool-cases (i == j)) [
  | inl e ↦
      subst (Effect (ensure_vault s j)) (sym (ensure-save s i j v ∙ rw e refl))
        (subst (λ k. Effect (ensure_vault s k) v) ((eq_iff i j).0 e) effect)
  | inr e ↦
      subst (Effect (ensure_vault s j)) (sym (ensure-save s i j v ∙ rw e refl))
        (nothing-Effect (ensure_vault s j))
]

abbrev pub CommitsPast : ServerVault → Type 0
CommitsPast v =
    (i : String) (c : ServerCommit) → get v.commits i ≡ some c → c.revision ≤ v.head_revision

module _ (nfc : String → String) (digest : CanonicalPayload → String)
    (name : (vault_id file_id : String) (revision : ℕ) (blob_id : String)
      → FileVersionSource
      → String) where
  -- A call that returns takes the state from the first to the second.
  pub data ServerStep (s t : ServerState) : Type 0 where
    commits :
        (vault_id : String) (request : CommitRequest) (auth_device_id : Option String) (now_ms : ℕ)
        (response : CommitResponse)
        → create_commit nfc digest name s vault_id request auth_device_id now_ms ≡ ok (response, t)
        → ServerStep s t
    acknowledges :
        (vault_id : String) (revisions : List ℕ) (device_id : Option String) (now_ms : ℕ)
        (run_id : String) (acked : ℕ)
        → ack_revisions nfc digest s vault_id revisions device_id now_ms run_id ≡ ok (acked, t)
        → ServerStep s t
    collects :
        (vault_id : String) (run : GcRun) (result : GcResult)
        → run_tombstone_gc nfc digest s vault_id run ≡ ok (result, t)
        → ServerStep s t
    lists :
        (vault_id : String) (current : Option String) (now_ms inactive_after_ms : ℕ)
        (devices : List VaultDevice)
        → list_vault_devices s vault_id current now_ms inactive_after_ms ≡ ok (devices, t)
        → ServerStep s t
    beats :
        (vault_id device_id : String) (now_ms : ℕ) (response : ℕ × ℕ × ℕ)
        → heartbeat_device s vault_id device_id now_ms ≡ ok (response, t)
        → ServerStep s t
    touches :
        (device_id : Option String) (now_ms : ℕ)
        → touch_device s device_id now_ms ≡ t
        → ServerStep s t
    heads :
        (vault_id : String) (response : ℕ × Option String)
        → ◌≡◌ {A = (ℕ × Option String) × ServerState} (get_vault_head s vault_id) (response, t)
        → ServerStep s t
    updates :
        (vault_id version_id : String) (payload : FileVersionUpdate) (updated : FileVersionRecord)
        → update_file_version s vault_id version_id payload ≡ ok (updated, t)
        → ServerStep s t
    deletes :
        (run_id : String → String) (device_id : String) (actor : Option String)
        (revoked_at_ms now_ms : ℕ) (deleted : Bool)
        → delete_device nfc digest run_id s device_id actor revoked_at_ms now_ms ≡ ok (deleted, t)
        → ServerStep s t
    -- A method that leaves every vault as it is, or writes an empty one that was not there: an upload, a
    -- download, a registration, a session, or a method that only reads.
    elsewhere : ((i : String) → ensure_vault t i ≡ ensure_vault s i) → ServerStep s t
