-- ===== src/Server/CollectTests.antt =====
-- A vault whose deletion is collected, by a run and by the deletion of the device that held it up; and the
-- versions of a file.
use personal_knowledge_base.Base.{
  ℕ, ◌≤◌, Apart, ◌==◌, eq_iff, String, ◌≡◌, ◌≢◌, ◌⊎◌, ◌↔◌, refl, Bool, true, false, none, some,
  List, [], ◌∷◌, Has, filter, length, map, arith,
}
use personal_knowledge_base.Base.Dict.{Dict, get, put}
use personal_knowledge_base.Base.Sort.{sorted}
use personal_knowledge_base.Base.Text.{str_leb}
use personal_knowledge_base.Base.Exec.{Result, ok, raise, traverse, store_error}
use personal_knowledge_base.Models.{ManifestRecord}
use personal_knowledge_base.Manifest.{compute_manifest_summary_hash}
use personal_knowledge_base.Paths.Decimal.{decimal}
use personal_knowledge_base.Server.Vault.{
  commit_success, FileVersionRecord, FileVersions, GcResult, ServerVault, ServerDevice, ServerState,
  empty_vault, ensure_vault,
}
use personal_knowledge_base.Server.Manifests.{Deletes, finalize_manifest_payload}
use personal_knowledge_base.Server.Versions.{
  listed_records, version_id_of, apply_file_version_retention_policy,
}
use personal_knowledge_base.Server.Collect.{GcRun, run_tombstone_gc_locked}
use personal_knowledge_base.Server.History.{empty_state}
use personal_knowledge_base.Server.Reclaimed.{Reclaimable, Keeps, run_gc-Kept}
use personal_knowledge_base.Server.Summary.{finalize-summary}
use personal_knowledge_base.Server.Split.{is_regular}
use personal_knowledge_base.Server.Retained.{Before, InOrder, retention-keeps_latest}
use personal_knowledge_base.Server.Samples.{same, no_digest, manifest, value_or}
use personal_knowledge_base.Server.Removal.{delete_device}

abbrev finalized : ManifestRecord
finalized = record manifest {
  revision = 1;
  tombstones =
      record {
        file_id = "f2";
        deleted_revision = some 1;
        deleted_at = 4;
        local_delete_seq = 1;
        last_known_path = some "b.md";
        deleted_by_device = some "d1";
        meta = none;
      }
      ∷ [];
  summary_hash = "sha256:d";
}

finalizes : finalize_manifest_payload same no_digest manifest 1 ≡ ok finalized
unfolding finalize_manifest_payload traverse sorted
finalizes = refl

finalize-summary_example : "sha256:d" ≡ compute_manifest_summary_hash same no_digest finalized
finalize-summary_example =
    finalize-summary same no_digest manifest finalized 1 (λ s. refl) finalizes

abbrev vault : ServerVault
vault = record empty_vault {
  head_revision = 1;
  manifests = ("1", finalized) ∷ [];
  acks = ("d1", 1) ∷ ("d2", 0) ∷ [];
}

-- A device that has acknowledged nothing, and is revoked.
abbrev known : Dict ServerDevice
known =
    (
      "d2",
      record {
        device_name = none;
        platform = none;
        app_version = none;
        protocol_version = none;
        registered_at_ms = none;
        last_seen_at_ms = none;
        revoked = true;
        revoked_at_ms = some 6;
        user_id = none;
      },
    )
    ∷ []

abbrev run : GcRun
run = record {
  run_id = "r1";
  now_ms = 604800004;
  min_retention_ms = 604800000;
  inactive_after_ms = 604800000;
  actor_device_id = none;
  record_noop = true;
}

abbrev no_result : GcResult
no_result = record {
  vault_id = "";
  run_id = "";
  ran_at_ms = 0;
  base_revision = 0;
  new_revision = none;
  head_revision = 0;
  active_device_ids = [];
  min_retention_ms = 0;
  inactive_after_ms = 0;
  reclaimed_tombstones = [];
  blocked_tombstones = [];
  reason = "";
}

unfoldable collected : GcResult × ServerVault
unfolding run_tombstone_gc_locked
collected =
    value_or (no_result, empty_vault) (run_tombstone_gc_locked same no_digest known "v" vault run)

collects_one :
    run_tombstone_gc_locked same no_digest known "v" vault run ≡ ok (collected.0, collected.1)
unfolding run_tombstone_gc_locked collected get decimal traverse sorted str_leb
collects_one = refl

has_head : get vault.manifests (decimal 1) ≡ some finalized
unfolding get decimal
has_head = refl

run_gc-Kept_example :
    (f : ManifestRecord) × (get collected.1.manifests (decimal collected.1.head_revision) ≡ some f)
    × ((i : String) → Deletes f i ↔ Keeps finalized (Reclaimable known vault 604800004 604800000) i)
run_gc-Kept_example =
    run_gc-Kept same no_digest known "v" vault collected.1 run finalized collected.0 has_head
      collects_one

abbrev version : String → ℕ → Bool → FileVersionRecord
version version_id revision is_pinned = record {
  version_id = version_id;
  file_id = "f1";
  path_at_revision = "a.md";
  revision = revision;
  content_hash = "sha256:1";
  blob_id = "b1";
  size = 3;
  mtime = 4;
  created_at = 5;
  created_by_device = "d1";
  source = commit_success;
  is_pinned = is_pinned;
  version_label = none;
  change_note = none;
}

-- Three versions, of which the first is pinned, and a limit of one.
abbrev versions : FileVersions
versions = record {
  records =
      ("v1", version "v1" 1 true)
      ∷ ("v2", version "v2" 2 false)
      ∷ ("v3", version "v3" 3 false)
      ∷ [];
  by_file_id = ("f1", "v1" ∷ "v2" ∷ "v3" ∷ []) ∷ [];
  retention_policy = record { keep_latest = 1; keep_pinned = true };
}

listed : get versions.by_file_id "f1" ≡ some ("v1" ∷ "v2" ∷ "v3" ∷ [])
unfolding get
listed = refl

versions_keyed :
    (i : String) (r : FileVersionRecord) → get versions.records i ≡ some r → r.version_id ≡ i
unfolding get
versions_keyed i r h = ground (arith, eq_iff "v1" i, eq_iff "v2" i, eq_iff "v3" i, h)

listed_once : Apart (λ i j. i == j) ("v1" ∷ "v2" ∷ "v3" ∷ [])
listed_once = ((refl, (refl, tt)), ((refl, tt), (tt, tt)))

retention-keeps_latest_example :
    let after = apply_file_version_retention_policy versions "f1" in
    (kept : List FileVersionRecord) × (dropped : List FileVersionRecord) × (get after.by_file_id
        "f1"
      ≡ some (map version_id_of kept))
    × InOrder kept
    × ((r : FileVersionRecord)
        → Has r (listed_records versions.records ("v1" ∷ "v2" ∷ "v3" ∷ []))
          ↔ (Has r kept ⊎ Has r dropped))
    × ((r : FileVersionRecord) → Has r kept → get after.records r.version_id ≡ some r)
    × ((i : String)
        → ((r : FileVersionRecord) → Has r dropped → r.version_id ≢ i)
        → get after.records i ≡ get versions.records i)
    × ((r : FileVersionRecord)
        → Has r dropped
        → (get after.records r.version_id ≡ none)
          × (is_regular true r ≡ true)
          × (length (filter (is_regular true) kept) ≡ 1)
          × ((k : FileVersionRecord) → Has k kept → is_regular true k ≡ true → Before k r))
    × (length (filter (is_regular true) kept) ≤ 1)
retention-keeps_latest_example =
    retention-keeps_latest versions "f1" ("v1" ∷ "v2" ∷ "v3" ∷ []) listed versions_keyed listed_once

-- The device d2 is not revoked yet, so that the deletion waits for it.
abbrev waiting : ServerState
waiting = record empty_state {
  devices =
      (
        "d2",
        record {
          device_name = none;
          platform = none;
          app_version = none;
          protocol_version = none;
          registered_at_ms = none;
          last_seen_at_ms = none;
          revoked = false;
          revoked_at_ms = none;
          user_id = some "u1";
        },
      )
      ∷ [];
  vaults = ("v", vault) ∷ [];
}

abbrev head_after : Result (Bool × ServerState) → ℕ
head_after result = (ensure_vault (value_or (false, empty_state) result).1 "v").head_revision

-- To delete it moves the head.
deletion_collects :
    head_after
      (delete_device same no_digest (λ vault_id. "r1") waiting "d2" none 604800004 604800004)
    ≡ 2
unfolding delete_device run_tombstone_gc_locked ensure_vault get put decimal traverse sorted str_leb
deletion_collects = refl

-- By a device of no user it is refused.
deletion_refused :
    delete_device same no_digest (λ vault_id. "r1") waiting "d2" (some "d9") 604800004 604800004
    ≡ raise (store_error "device_forbidden" "Device does not belong to the current user")
unfolding delete_device get
deletion_refused = refl
