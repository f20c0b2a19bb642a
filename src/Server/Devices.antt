-- ===== src/Server/Devices.antt =====
-- sync_store.py: acknowledgements, and the devices of a vault.
use personal_knowledge_base.Base.{
  ℕ, ◌+◌, ◌-◌, nat_eq, ltb, leb, max, String, ◌==◌, Bool, true, false, not, ◌&&◌, ◌||◌, Option,
  none, some, List, [], ◌∷◌, any, map, is_some, first_some, if◌then◌else◌,
}
use personal_knowledge_base.Base.Text.{str_leb}
use personal_knowledge_base.Base.Dict.{Dict, get, put}
use personal_knowledge_base.Base.Sort.{sorted}
use personal_knowledge_base.Base.Exec.{Result, ok, raise_if, require, ◌>>=◌, ◌>>◌, store_error}
use personal_knowledge_base.Manifest.{CanonicalPayload}
use personal_knowledge_base.Server.Vault.{
  ServerVault, ServerDevice, ServerState, ensure_vault, save_vault, or_zero, acknowledge,
}
use personal_knowledge_base.Server.Collect.{
  acked_by, joined_vault_device_ids, run_tombstone_gc_locked,
}

abbrev pub max_of : List ℕ → ℕ
max_of [] = 0
max_of (n ∷ rest) = max n (max_of rest)

unfoldable pub repeats : List ℕ → Bool
repeats [] = false
repeats (n ∷ rest) = any (nat_eq n) rest || repeats rest

unfoldable pub require_unique_positive_ints : List ℕ → Result (List ℕ)
unfolding repeats
require_unique_positive_ints revisions = do
  raise_if (nat_eq (personal_knowledge_base.Base.length revisions) 0)
      (store_error "invalid_request" "revisions must be a non-empty list")
  raise_if (any (λ n. nat_eq n 0) revisions)
      (store_error "invalid_request" "revisions items must be positive integers")
  raise_if (repeats revisions) (store_error "invalid_request" "revisions must be unique")
  ok revisions

abbrev actor_of : Option String → String
actor_of none = "anonymous"
actor_of (some i) = if i == "" then "anonymous" else i

module _ (nfc : String → String) (digest : CanonicalPayload → String) where
  -- What `ack_revisions` does to the vault. The retention and the inactivity are seven days.
  unfoldable pub ack_vault :
      Dict ServerDevice
      → (vault_id : String) → ServerVault
      → (actor : String) → List ℕ
      → (now_ms : ℕ) → (run_id : String) → Result ServerVault
  unfolding acknowledge run_tombstone_gc_locked
  ack_vault devices vault_id vault actor revisions now_ms run_id = do
    raise_if (ltb vault.head_revision (max_of revisions))
        (store_error "ack_revision_ahead_of_head" "Ack revision cannot exceed current vault head")
    done ←
        run_tombstone_gc_locked nfc digest devices vault_id
          (acknowledge vault actor (max_of revisions))
          (record {
            run_id = run_id;
            now_ms = now_ms;
            min_retention_ms = 604800000;
            inactive_after_ms = 604800000;
            actor_device_id = some actor;
            record_noop = false;
          })
    ok done.1

  unfoldable pub ack_revisions :
      ServerState
      → (vault_id : String) → List ℕ
      → (device_id : Option String) → (now_ms : ℕ) → (run_id : String) → Result (ℕ × ServerState)
  unfolding ack_vault require_unique_positive_ints ensure_vault
  ack_revisions state vault_id given device_id now_ms run_id = do
    revisions ← require_unique_positive_ints given
    let actor = actor_of device_id
    vault ←
        ack_vault state.devices vault_id (ensure_vault state vault_id) actor revisions now_ms run_id
    ok (acked_by vault actor, save_vault state vault_id vault)

pub record VaultDevice : Type 0 where
  pub device_id : String
  pub device_name : String
  pub platform : String
  pub app_version : Option String
  pub protocol_version : String
  pub registered_at_ms : Option ℕ
  pub last_seen_at_ms : Option ℕ
  pub acked_revision : ℕ
  pub is_current_device : Bool
  pub is_revoked : Bool
  pub is_inactive_candidate : Bool

-- A device that joined the vault and is not known.
abbrev unknown_device : ServerDevice
unknown_device = record {
  device_name = none;
  platform = none;
  app_version = none;
  protocol_version = none;
  registered_at_ms = none;
  last_seen_at_ms = none;
  revoked = false;
  revoked_at_ms = none;
  user_id = none;
}

abbrev text_or : String → Option String → String
text_or default none = default
text_or default (some s) = s

abbrev same_text : Option String → String → Bool
same_text none i = false
same_text (some j) i = i == j

-- The time since it was seen reaches the limit. A time in the future is not inactive, as the limit is
-- positive.
abbrev pub is_inactive : (now_ms inactive_after_ms : ℕ) → Option ℕ → Bool
is_inactive now_ms inactive_after_ms none = false
is_inactive now_ms inactive_after_ms (some seen) = leb inactive_after_ms (now_ms - seen)

unfoldable pub describe_device :
    ServerState
    → ServerVault
    → (current_device_id : Option String) → (now_ms inactive_after_ms : ℕ) → (device_id : String)
    → VaultDevice
describe_device state vault current now_ms inactive_after_ms device_id =
    let device : ServerDevice = elim (get state.devices device_id) [
      | none ↦ unknown_device
      | some d ↦ d
    ] in
    let seen = first_some device.last_seen_at_ms device.registered_at_ms in
    record {
      device_id = device_id;
      device_name = text_or device_id device.device_name;
      platform = text_or "unknown" device.platform;
      app_version = device.app_version;
      protocol_version = text_or "v1" device.protocol_version;
      registered_at_ms = device.registered_at_ms;
      last_seen_at_ms = seen;
      acked_revision = acked_by vault device_id;
      is_current_device = same_text current device_id;
      is_revoked = device.revoked;
      is_inactive_candidate = not device.revoked && is_inactive now_ms inactive_after_ms seen;
    }

-- The current device first, then those not revoked, then the last seen first, then by id.
unfoldable pub device_leb : VaultDevice → VaultDevice → Bool
device_leb a b =
    if a.is_current_device && not b.is_current_device
    then true
    else if b.is_current_device && not a.is_current_device
    then false
    else if b.is_revoked && not a.is_revoked
    then true
    else if a.is_revoked && not b.is_revoked
    then false
    else if nat_eq (or_zero a.last_seen_at_ms) (or_zero b.last_seen_at_ms)
    then str_leb a.device_id b.device_id
    else leb (or_zero b.last_seen_at_ms) (or_zero a.last_seen_at_ms)

unfoldable pub list_vault_devices :
    ServerState
    → (vault_id : String) → (current_device_id : Option String) → (now_ms inactive_after_ms : ℕ)
    → Result (List VaultDevice × ServerState)
unfolding describe_device device_leb joined_vault_device_ids sorted ensure_vault
list_vault_devices state vault_id current now_ms inactive_after_ms = do
  raise_if (nat_eq inactive_after_ms 0)
      (store_error "invalid_request" "inactive_after_ms must be positive")
  let vault = ensure_vault state vault_id
  ok (
    sorted device_leb (
        map (describe_device state vault current now_ms inactive_after_ms)
          (joined_vault_device_ids vault)),
    save_vault state vault_id vault,
  )

abbrev seen_at : ℕ → ServerDevice → ServerDevice
seen_at now_ms device = record device { last_seen_at_ms = some now_ms }

-- The record of a device that is known and not revoked.
unfoldable pub live_device : Dict ServerDevice → String → Option ServerDevice
live_device devices device_id = elim (get devices device_id) [
  | none ↦ none
  | some device ↦ if device.revoked then none else some device
]

unfoldable pub touch_device : ServerState → (device_id : Option String) → (now_ms : ℕ) → ServerState
unfolding live_device
touch_device state none now_ms = state
touch_device state (some device_id) now_ms =
    if device_id == "" then state else elim (live_device state.devices device_id) [
      | none ↦ state
      | some device ↦ record state { devices = put state.devices device_id (seen_at now_ms device) }
    ]

-- The response: the time, the revision that the device acknowledged, and the head.
unfoldable pub heartbeat_device :
    ServerState → (vault_id device_id : String) → (now_ms : ℕ) → Result ((ℕ × ℕ × ℕ) × ServerState)
unfolding live_device ensure_vault
heartbeat_device state vault_id device_id now_ms = do
  device ←
      require (live_device state.devices device_id)
        (store_error "device_not_found" "Device was not found")
  let vault = ensure_vault state vault_id
  ok (
    (now_ms, acked_by vault device_id, vault.head_revision),
    save_vault (record state { devices = put state.devices device_id (seen_at now_ms device) })
        vault_id vault,
  )
