-- ===== src/Server/Removal.antt =====
-- sync_store.py: `delete_device`, which revokes a device and then collects deletions in every vault. Its
-- sessions, tokens, capabilities and unfinished uploads are no part of the modelled state.
use personal_knowledge_base.Base.{ℕ, String, Bool, true, false, not, Option, none, some, [], ◌∷◌}
use personal_knowledge_base.Base.{◌==◌}
use personal_knowledge_base.Base.Dict.{Dict, get, put}
use personal_knowledge_base.Base.Exec.{Result, ok, raise_if, ◌>>=◌, ◌>>◌, store_error}
use personal_knowledge_base.Manifest.{CanonicalPayload}
use personal_knowledge_base.Server.Vault.{ServerVault, ServerDevice, ServerState}
use personal_knowledge_base.Server.Collect.{GcRun, run_tombstone_gc_locked}

abbrev same_user : Option String → Option String → Bool
same_user none none = true
same_user none (some j) = false
same_user (some i) none = false
same_user (some i) (some j) = i == j

-- The actor, if there is one, is a known device of the same user.
unfoldable pub may_delete :
    Dict ServerDevice → ServerDevice → (actor_device_id : Option String) → Bool
may_delete devices device none = true
may_delete devices device (some actor_device_id) = elim (get devices actor_device_id) [
  | none ↦ false
  | some actor ↦ same_user actor.user_id device.user_id
]

abbrev pub revoke : ServerDevice → (revoked_at_ms : ℕ) → ServerDevice
revoke device revoked_at_ms = record device { revoked = true; revoked_at_ms = some revoked_at_ms }

-- The run of a vault, with the id that it draws. The retention and the inactivity are seven days.
abbrev pub removal_run : (run_id : String → String) → (vault_id : String) → (now_ms : ℕ) → GcRun
removal_run run_id vault_id now_ms = record {
  run_id = run_id vault_id;
  now_ms = now_ms;
  min_retention_ms = 604800000;
  inactive_after_ms = 604800000;
  actor_device_id = none;
  record_noop = false;
}

module _ (nfc : String → String) (digest : CanonicalPayload → String)
    (run_id : String → String) where
  -- The loop over the vaults.
  unfoldable pub collect_vaults :
      Dict ServerDevice → (now_ms : ℕ) → Dict ServerVault → Result (Dict ServerVault)
  unfolding run_tombstone_gc_locked
  collect_vaults devices now_ms [] = ok []
  collect_vaults devices now_ms ((vault_id, vault) ∷ rest) =
      let others = collect_vaults devices now_ms rest in
      do
        done ←
            run_tombstone_gc_locked nfc digest devices vault_id vault
              (removal_run run_id vault_id now_ms)
        collected ← others
        ok ((vault_id, done.1) ∷ collected)

  -- What is done to a device that is known.
  unfoldable pub remove_device :
      ServerState
      → (device_id : String) → ServerDevice
      → (actor_device_id : Option String) → (revoked_at_ms now_ms : ℕ) → Result (Bool × ServerState)
  unfolding may_delete collect_vaults
  remove_device state device_id device actor_device_id revoked_at_ms now_ms = do
    raise_if (not (may_delete state.devices device actor_device_id))
        (store_error "device_forbidden" "Device does not belong to the current user")
    let devices = put state.devices device_id (revoke device revoked_at_ms)
    vaults ← collect_vaults devices now_ms state.vaults
    ok (true, record state { devices = devices; vaults = vaults })

  unfoldable pub delete_device :
      ServerState
      → (device_id : String) → (actor_device_id : Option String) → (revoked_at_ms now_ms : ℕ)
      → Result (Bool × ServerState)
  unfolding remove_device
  delete_device state device_id actor_device_id revoked_at_ms now_ms =
      elim (get state.devices device_id) [
        | none ↦ ok (false, state)
        | some device ↦ remove_device state device_id device actor_device_id revoked_at_ms now_ms
      ]
