-- ===== src/Server/Steps/Calls.antt =====
-- sync_store.py: what each method other than a commit does to the log of each vault.
use mathlib.Core.Path.{subst}
use personal_knowledge_base.Base.{
  ℕ, nat_eq, String, ◌==◌, ◌≡◌, refl, ap, true, Option, none, some, List, arith,
}
use personal_knowledge_base.Base.Dict.{get}
use personal_knowledge_base.Base.Exec.{ok, raise_if, require, >>=_inv, ok-injective}
use personal_knowledge_base.Manifest.{CanonicalPayload}
use personal_knowledge_base.Server.Vault.{ServerState, FileVersionRecord, GcResult, ensure_vault}
use personal_knowledge_base.Server.Collect.{GcRun, run_tombstone_gc_locked, run_tombstone_gc}
use personal_knowledge_base.Server.Queries.{
  get_vault_head, FileVersionUpdate, is_blank_update, is_empty_update, update_file_version,
}
use personal_knowledge_base.Server.Devices.{
  VaultDevice, ack_vault, ack_revisions, require_unique_positive_ints, list_vault_devices,
  live_device, touch_device, heartbeat_device,
}
use personal_knowledge_base.Server.Effects.{Effect, keeps, same-Acks}
use personal_knowledge_base.Server.Effects.Collect.{run_gc-Effect, ack_vault-Effect}
use personal_knowledge_base.Server.Steps.{nothing-Effect, save-Effect}

pub list_vault_devices-Effect :
    (s t : ServerState) (vault_id j : String) (current : Option String)
    (now_ms inactive_after_ms : ℕ) (devices : List VaultDevice)
    → list_vault_devices s vault_id current now_ms inactive_after_ms ≡ ok (devices, t)
    → Effect (ensure_vault s j) (ensure_vault t j)
unfolding list_vault_devices
list_vault_devices-Effect s t vault_id j current now_ms inactive_after_ms devices e =
    let (_, _, e₁) = >>=_inv (raise_if (nat_eq inactive_after_ms 0) _) _ e in
    subst (λ (x : ServerState). Effect (ensure_vault s j) (ensure_vault x j))
      (ap (λ (p : List VaultDevice × ServerState). p.1) (ok-injective e₁))
      (save-Effect s vault_id j (ensure_vault s vault_id)
        (nothing-Effect (ensure_vault s vault_id)))

pub heartbeat-Effect :
    (s t : ServerState) (vault_id j device_id : String) (now_ms : ℕ) (response : ℕ × ℕ × ℕ)
    → heartbeat_device s vault_id device_id now_ms ≡ ok (response, t)
    → Effect (ensure_vault s j) (ensure_vault t j)
unfolding heartbeat_device ensure_vault
heartbeat-Effect s t vault_id j device_id now_ms response e =
    let (device, _, e₁) = >>=_inv (require (live_device s.devices device_id) _) _ e in
    subst (λ (x : ServerState). Effect (ensure_vault s j) (ensure_vault x j))
      (ap (λ (p : (ℕ × ℕ × ℕ) × ServerState). p.1) (ok-injective e₁))
      (save-Effect s vault_id j (ensure_vault s vault_id)
        (nothing-Effect (ensure_vault s vault_id)))

pub touch-vaults :
    (s : ServerState) (j : String) (device_id : Option String) (now_ms : ℕ)
    → ensure_vault (touch_device s device_id now_ms) j ≡ ensure_vault s j
unfolding touch_device ensure_vault
touch-vaults s j none now_ms = refl
touch-vaults s j (some i) now_ms = ground arith

pub get_vault_head-Effect :
    (s t : ServerState) (vault_id j : String) (response : ℕ × Option String)
    → ◌≡◌ {A = (ℕ × Option String) × ServerState} (get_vault_head s vault_id) (response, t)
    → Effect (ensure_vault s j) (ensure_vault t j)
unfolding get_vault_head
get_vault_head-Effect s t vault_id j response e =
    subst (λ (x : ServerState). Effect (ensure_vault s j) (ensure_vault x j))
      (ap (λ (p : (ℕ × Option String) × ServerState). p.1) e)
      (save-Effect s vault_id j (ensure_vault s vault_id)
        (nothing-Effect (ensure_vault s vault_id)))

pub update_file_version-Effect :
    (s t : ServerState) (vault_id j version_id : String) (payload : FileVersionUpdate)
    (updated : FileVersionRecord)
    → update_file_version s vault_id version_id payload ≡ ok (updated, t)
    → Effect (ensure_vault s j) (ensure_vault t j)
unfolding update_file_version
update_file_version-Effect s t vault_id j version_id payload updated e =
    let (_, _, e₁) = >>=_inv (raise_if (version_id == "") _) _ e in
    let (_, _, e₂) = >>=_inv (raise_if (is_empty_update payload) _) _ e₁ in
    let (_, _, e₃) = >>=_inv (raise_if (is_blank_update payload.version_label) _) _ e₂ in
    let (_, _, e₄) = >>=_inv (raise_if (is_blank_update payload.change_note) _) _ e₃ in
    let (r, _, e₅) =
      >>=_inv (require (get (ensure_vault s vault_id).file_versions.records version_id) _) _ e₄ in
    let v = ensure_vault s vault_id in
    subst (λ (x : ServerState). Effect (ensure_vault s j) (ensure_vault x j))
      (ap (λ (p : FileVersionRecord × ServerState). p.1) (ok-injective e₅))
      (save-Effect s vault_id j _ (keeps refl refl refl refl (same-Acks v _ refl)))

module _ (nfc : String → String) (digest : CanonicalPayload → String) where
  pub ack_revisions-Effect :
      (s t : ServerState) (vault_id j : String) (given : List ℕ) (device_id : Option String)
      (now_ms : ℕ) (run_id : String) (acked : ℕ)
      → ack_revisions nfc digest s vault_id given device_id now_ms run_id ≡ ok (acked, t)
      → Effect (ensure_vault s j) (ensure_vault t j)
  unfolding ack_revisions
  ack_revisions-Effect s t vault_id j given device_id now_ms run_id acked e =
      let (revisions, _, e₁) = >>=_inv (require_unique_positive_ints given) _ e in
      let (w, ran, e₂) =
        >>=_inv
          (ack_vault nfc digest s.devices vault_id (ensure_vault s vault_id) _ revisions now_ms
            run_id)
          _ e₁ in
      subst (λ (x : ServerState). Effect (ensure_vault s j) (ensure_vault x j))
        (ap (λ (p : ℕ × ServerState). p.1) (ok-injective e₂))
        (save-Effect s vault_id j w (
          ack_vault-Effect nfc digest s.devices vault_id (ensure_vault s vault_id) w _ revisions
            now_ms run_id ran))

  pub run_tombstone_gc-Effect :
      (s t : ServerState) (vault_id j : String) (run : GcRun) (result : GcResult)
      → run_tombstone_gc nfc digest s vault_id run ≡ ok (result, t)
      → Effect (ensure_vault s j) (ensure_vault t j)
  unfolding run_tombstone_gc
  run_tombstone_gc-Effect s t vault_id j run result e =
      let (_, _, e₁) = >>=_inv (raise_if (nat_eq run.inactive_after_ms 0) _) _ e in
      let v = ensure_vault s vault_id in
      let noted = record run { record_noop = true } in
      let (done, ran, e₂) =
        >>=_inv (run_tombstone_gc_locked nfc digest s.devices vault_id v noted) _ e₁ in
      subst (λ (x : ServerState). Effect (ensure_vault s j) (ensure_vault x j))
        (ap (λ (p : GcResult × ServerState). p.1) (ok-injective e₂))
        (save-Effect s vault_id j done.1
          (run_gc-Effect nfc digest s.devices vault_id v done.1 noted done.0 ran))
