-- ===== src/Server/Collect.antt =====
-- sync_store.py: the garbage collection of deletions, which runs by itself and after an acknowledgement.
use personal_knowledge_base.Base.{
  ℕ, ◌+◌, ◌-◌, nat_eq, ltb, String, ◌==◌, Bool, true, false, not, ◌||◌, Option, none, some, List,
  [], ◌∷◌, ◌++◌, filter, map, length, is_some, if◌then◌else◌,
}
use Prim.Native.String.{◌++◌ as text_append}
use personal_knowledge_base.Base.Text.{str_leb}
use personal_knowledge_base.Base.Dict.{Dict, get, put}
use personal_knowledge_base.Base.Sort.{sorted}
use personal_knowledge_base.Base.Exec.{Result, ok, raise_if, ◌>>=◌, ◌>>◌, store_error}
use personal_knowledge_base.Models.{TombstoneRecord, ManifestRecord}
use personal_knowledge_base.Manifest.{CanonicalPayload}
use personal_knowledge_base.Paths.Decimal.{decimal}
use personal_knowledge_base.Server.Vault.{
  TombstoneGcItem, BlockedDevice, BlockedTombstone, GcResult, ServerVault, ServerDevice,
  ServerState, ensure_vault, save_vault, or_zero,
}
use personal_knowledge_base.Server.Manifests.{finalize_manifest_payload}

abbrev pub tombstone_gc_item : TombstoneRecord → TombstoneGcItem
tombstone_gc_item r = record {
  file_id = r.file_id;
  deleted_revision = r.deleted_revision;
  deleted_at = r.deleted_at;
  last_known_path = r.last_known_path;
  deleted_by_device = r.deleted_by_device;
}

-- A device that is not known counts as active.
abbrev pub is_revoked : Dict ServerDevice → String → Bool
is_revoked devices device_id = elim (get devices device_id) [
  | none ↦ false
  | some device ↦ device.revoked
]

abbrev pub entry_key : String × ℕ → String
entry_key entry = entry.0

unfoldable pub joined_vault_device_ids : ServerVault → List String
joined_vault_device_ids vault =
    sorted str_leb (filter (λ i. not (i == "")) (map entry_key vault.acks))

unfoldable pub active_vault_device_ids : Dict ServerDevice → ServerVault → List String
unfolding joined_vault_device_ids
active_vault_device_ids devices vault =
    filter (λ i. not (is_revoked devices i)) (joined_vault_device_ids vault)

abbrev pub acked_by : ServerVault → String → ℕ
acked_by vault device_id = or_zero (get vault.acks device_id)

-- What is left of the time for which a deletion has to be kept. `-` stops at 0, as `max(0, ...)` does.
abbrev pub retention_remaining : (now_ms min_retention_ms : ℕ) → TombstoneRecord → ℕ
retention_remaining now_ms min_retention_ms r = min_retention_ms - (now_ms - r.deleted_at)

unfoldable pub blocking_devices :
    ServerVault → (active_device_ids : List String) → (deleted_revision : ℕ) → List BlockedDevice
blocking_devices vault [] deleted_revision = []
blocking_devices vault (i ∷ rest) deleted_revision =
    let others = blocking_devices vault rest deleted_revision in
    if ltb (acked_by vault i) deleted_revision
    then record {
      device_id = i;
      acked_revision = acked_by vault i;
      required_revision = deleted_revision;
    }
      ∷ others
    else others

abbrev pub is_nonempty : {A : Type 0} → List A → Bool
is_nonempty [] = false
is_nonempty (x ∷ xs) = true

abbrev block_reason : Bool → Bool → String
block_reason true true = "waiting_for_ack_and_retention"
block_reason true false = "waiting_for_ack"
block_reason false _ = "retention_window"

module _ (vault : ServerVault) (active_device_ids : List String) (now_ms min_retention_ms : ℕ) where
  abbrev blocked_record : TombstoneRecord → ℕ → BlockedTombstone
  blocked_record r deleted_revision =
      let devices = blocking_devices vault active_device_ids deleted_revision in
      let remaining = retention_remaining now_ms min_retention_ms r in
      record {
        item = tombstone_gc_item r;
        reason = block_reason (is_nonempty devices) (ltb 0 remaining);
        retention_remaining_ms = remaining;
        blocked_by_devices = devices;
      }

  abbrev is_blocked : TombstoneRecord → ℕ → Bool
  is_blocked r deleted_revision =
      is_nonempty (blocking_devices vault active_device_ids deleted_revision)
      || ltb 0 (retention_remaining now_ms min_retention_ms r)

  -- What keeps a deletion in the manifest, or nothing.
  unfoldable pub why_blocked : TombstoneRecord → Option BlockedTombstone
  unfolding blocking_devices
  why_blocked r = elim r.deleted_revision [
    | none ↦ some (record {
      item = tombstone_gc_item r;
      reason = "pending_deleted_revision";
      retention_remaining_ms = 0;
      blocked_by_devices = [];
    })
    | some revision ↦
        if nat_eq revision 0
        then some (record {
          item = tombstone_gc_item r;
          reason = "pending_deleted_revision";
          retention_remaining_ms = 0;
          blocked_by_devices = [];
        })
        else if is_blocked r revision
        then some (blocked_record r revision)
        else none
  ]

  abbrev pub is_kept : TombstoneRecord → Bool
  is_kept r = is_some (why_blocked r)

  unfoldable pub blocked_list : List TombstoneRecord → List BlockedTombstone
  unfolding why_blocked
  blocked_list [] = []
  blocked_list (r ∷ rest) =
      let others = blocked_list rest in elim (why_blocked r) [ none ↦ others | some b ↦ b ∷ others ]

-- `MAX_TOMBSTONE_GC_LOGS`
abbrev pub max_gc_logs : ℕ
max_gc_logs = 100

-- `del items[: len(items) - limit]`, where the list is longer than the limit.
unfoldable pub keep_last : {A : Type 0} → (limit : ℕ) → List A → List A
keep_last limit [] = []
keep_last limit (x ∷ xs) =
    let rest = keep_last limit xs in if ltb limit (length (x ∷ xs)) then rest else x ∷ xs

unfoldable pub append_tombstone_gc_log : ServerVault → GcResult → ServerVault
unfolding keep_last
append_tombstone_gc_log vault result = record vault {
  gc_runs = keep_last max_gc_logs (vault.gc_runs ++ result ∷ []);
}

abbrev pub gc_intent_id : (run_id : String) → String
gc_intent_id run_id = text_append "tombstone-gc:" run_id

pub record GcRun : Type 0 where
  pub run_id : String
  pub now_ms : ℕ
  pub min_retention_ms : ℕ
  pub inactive_after_ms : ℕ
  pub actor_device_id : Option String
  pub record_noop : Bool

abbrev pub gc_actor : Option String → String
gc_actor none = "server:tombstone-gc"
gc_actor (some i) = if i == "" then "server:tombstone-gc" else i

module _ (nfc : String → String) (digest : CanonicalPayload → String) where
  -- The new head, without the deletions that are reclaimed.
  unfoldable pub write_gc_manifest :
      ServerVault
      → GcRun
      → ManifestRecord
      → (retained reclaimed : List TombstoneRecord) → Result ServerVault
  unfolding finalize_manifest_payload
  write_gc_manifest vault run head_manifest retained reclaimed = do
    let new_revision = vault.head_revision + 1
    finalized ←
        finalize_manifest_payload nfc digest
          (record head_manifest {
            base_revision = vault.head_revision;
            created_by_device = gc_actor run.actor_device_id;
            created_at = run.now_ms;
            tombstones = retained;
          })
          new_revision
    ok (record vault {
      manifests = put vault.manifests (decimal new_revision) finalized;
      head_revision = new_revision;
      manifest_summary = some finalized.summary_hash;
      commits = put vault.commits (gc_intent_id run.run_id) (record {
        commit_intent_id = gc_intent_id run.run_id;
        intent_manifest_hash = finalized.summary_hash;
        revision = new_revision;
        created_by_device = finalized.created_by_device;
        committed_at_ms = run.now_ms;
        kind = some "tombstone_gc";
        reclaimed_file_ids = map (λ (r : TombstoneRecord). r.file_id) reclaimed;
      });
    })

  -- The log of a run is kept if it reclaimed something or `record_noop` is set.
  unfoldable pub collect_head :
      (vault_id : String)
      → List String
      → ServerVault
      → GcRun
      → ManifestRecord
      → Result (GcResult × ServerVault)
  unfolding write_gc_manifest why_blocked blocked_list append_tombstone_gc_log
  collect_head vault_id active_device_ids vault run head_manifest = do
    let kept = is_kept vault active_device_ids run.now_ms run.min_retention_ms
    let reclaimed = filter (λ r. not (kept r)) head_manifest.tombstones
    written ←
        if is_nonempty reclaimed
        then write_gc_manifest vault run head_manifest (filter kept head_manifest.tombstones)
            reclaimed
        else ok vault
    let result : GcResult = record {
      vault_id = vault_id;
      run_id = run.run_id;
      ran_at_ms = run.now_ms;
      base_revision = vault.head_revision;
      new_revision = if is_nonempty reclaimed then some (vault.head_revision + 1) else none;
      head_revision = written.head_revision;
      active_device_ids = active_device_ids;
      min_retention_ms = run.min_retention_ms;
      inactive_after_ms = run.inactive_after_ms;
      reclaimed_tombstones = map tombstone_gc_item reclaimed;
      blocked_tombstones =
          blocked_list vault active_device_ids run.now_ms run.min_retention_ms
            head_manifest.tombstones;
      reason = if is_nonempty reclaimed then "reclaimed" else "no_reclaimable_tombstones";
    }
    ok (
      result,
      if run.record_noop || is_nonempty reclaimed
          then append_tombstone_gc_log written result
          else written,
    )

  unfoldable pub run_tombstone_gc_locked :
      Dict ServerDevice
      → (vault_id : String) → ServerVault
      → GcRun
      → Result (GcResult × ServerVault)
  unfolding collect_head active_vault_device_ids append_tombstone_gc_log
  run_tombstone_gc_locked devices vault_id vault run =
      let active = active_vault_device_ids devices vault in
      elim (get vault.manifests (decimal vault.head_revision)) [
        | some head_manifest ↦ collect_head vault_id active vault run head_manifest
        | none ↦
            let result : GcResult = record {
              vault_id = vault_id;
              run_id = run.run_id;
              ran_at_ms = run.now_ms;
              base_revision = vault.head_revision;
              new_revision = none;
              head_revision = vault.head_revision;
              active_device_ids = active;
              min_retention_ms = run.min_retention_ms;
              inactive_after_ms = run.inactive_after_ms;
              reclaimed_tombstones = [];
              blocked_tombstones = [];
              reason = "no_head_manifest";
            } in
            ok (result, if run.record_noop then append_tombstone_gc_log vault result else vault)
      ]

  unfoldable pub run_tombstone_gc :
      ServerState → (vault_id : String) → GcRun → Result (GcResult × ServerState)
  unfolding run_tombstone_gc_locked ensure_vault
  run_tombstone_gc state vault_id run = do
    raise_if (nat_eq run.inactive_after_ms 0)
        (store_error "invalid_request" "inactive_after_ms must be positive")
    done ←
        run_tombstone_gc_locked state.devices vault_id (ensure_vault state vault_id)
          (record run { record_noop = true })
    ok (done.0, save_vault state vault_id done.1)
