-- ===== src/Pull/Apply.antt =====
-- sync_apply.py and sync_reconcile.py: a pulled manifest is written to the file map, to the ledger of
-- deletions and to the state. A file is what was last written to it.
use personal_knowledge_base.Base.{
  ℕ, String, ◌==◌, nat_eq, not, Option, none, some, List, [], ◌∷◌, if◌then◌else◌,
}
use personal_knowledge_base.Base.Exec.{value_error, key_error}
use personal_knowledge_base.Base.State.{
  Action, ◌>>=◌, ◌>>◌, pure, lift, raise_if, require, gets, modify,
}
use personal_knowledge_base.Models.{
  FileMapDocument, TombstoneRecord, ManifestRecord, VaultStateRecord,
}
use personal_knowledge_base.Convergence.Defs.{ManifestConvergenceResult, converge_manifest_state}
use personal_knowledge_base.Manifest.{CanonicalPayload, compute_manifest_summary_hash}
use personal_knowledge_base.Recovery.{apply_manifest_reconciled_state}
use personal_knowledge_base.Store.Rows.{Database, load_vault_state, upsert_vault_state}
use personal_knowledge_base.Pull.Plan.{ReconcilePlan, plan_pull_reconcile, plan_required_blob_ids}

-- The device's database and the two files beside it.
pub record Local : Type 0 where
  pub database : Database
  pub filemap : Option FileMapDocument
  pub ledger : List TombstoneRecord

-- What only reads and writes the database.
abbrev pub on_database : {A : Type 0} → Action Database A → Action Local A
on_database action local =
    let done = action local.database in (done.0, record local { database = done.1 })

unfoldable pub write_filemap_atomic : FileMapDocument → Action Local Unit
write_filemap_atomic document = modify (λ local. record local { filemap = some document })

unfoldable pub rewrite_tombstone_ledger : List TombstoneRecord → Action Local Unit
rewrite_tombstone_ledger records = modify (λ local. record local { ledger = records })

unfoldable pub persist_manifest_convergence :
    FileMapDocument
    → ManifestRecord
    → (local_tombstones : List TombstoneRecord) → (rewritten_at : ℕ)
    → Action Local ManifestConvergenceResult
unfolding write_filemap_atomic rewrite_tombstone_ledger
persist_manifest_convergence current_document manifest local_tombstones rewritten_at = do
  result ← lift (converge_manifest_state current_document manifest local_tombstones rewritten_at)
  write_filemap_atomic result.filemap
  rewrite_tombstone_ledger result.tombstones
  pure result

pub record AppliedManifestResult : Type 0 where
  pub convergence : ManifestConvergenceResult
  pub state : VaultStateRecord
  pub required_blob_ids : List String

pub record ReconcileResult : Type 0 where
  pub plan : ReconcilePlan
  pub state : VaultStateRecord
  pub applied : Option AppliedManifestResult

module _ (nfc : String → String) (digest : CanonicalPayload → String) where
  unfoldable pub apply_pulled_manifest :
      FileMapDocument
      → ManifestRecord
      → (local_tombstones : List TombstoneRecord) → (rewritten_at : ℕ)
      → Action Local AppliedManifestResult
  unfolding persist_manifest_convergence load_vault_state upsert_vault_state
  apply_pulled_manifest current_document manifest local_tombstones rewritten_at = do
    row ← gets (λ local. load_vault_state local.database manifest.vault_id)
    state ← require row (key_error "vault_state not found" (manifest.vault_id ∷ []))
    convergence ←
        persist_manifest_convergence current_document manifest local_tombstones rewritten_at
    updated ← lift (
        apply_manifest_reconciled_state state manifest.revision
          (compute_manifest_summary_hash nfc digest manifest))
    on_database (upsert_vault_state updated)
    pure (record {
      convergence = convergence;
      state = updated;
      required_blob_ids = plan_required_blob_ids current_document manifest;
    })

  -- The rest of `execute_pull_reconcile`, where the manifest is needed.
  unfoldable pub reconcile_download :
      ReconcilePlan
      → FileMapDocument
      → VaultStateRecord
      → (local_tombstones : List TombstoneRecord) → (rewritten_at : ℕ) → Option ManifestRecord
      → Action Local ReconcileResult
  unfolding apply_pulled_manifest
  reconcile_download plan current_document current_state local_tombstones rewritten_at given = do
    manifest ←
        require given
          (value_error "manifest is required when reconcile plan requires a download" [])
    raise_if (not (manifest.vault_id == current_state.vault_id))
        (value_error "manifest vault_id does not match current state" [])
    raise_if (not (nat_eq manifest.revision plan.target_revision))
        (value_error "manifest revision does not match reconcile target_revision" [])
    applied ← apply_pulled_manifest current_document manifest local_tombstones rewritten_at
    pure (record { plan = plan; state = applied.state; applied = some applied })

  unfoldable pub execute_pull_reconcile :
      FileMapDocument
      → VaultStateRecord
      → (local_tombstones : List TombstoneRecord) → (observed_head_revision rewritten_at : ℕ)
      → Option ManifestRecord
      → Action Local ReconcileResult
  unfolding reconcile_download plan_pull_reconcile
  execute_pull_reconcile current_document current_state local_tombstones observed_head_revision
        rewritten_at manifest =
      let plan = plan_pull_reconcile current_state observed_head_revision in
      if plan.should_download_manifest
      then reconcile_download plan current_document current_state local_tombstones rewritten_at
          manifest
      else pure (record { plan = plan; state = current_state; applied = none })
