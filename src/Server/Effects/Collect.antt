-- ===== src/Server/Effects/Collect.antt =====
-- sync_store.py: what the garbage collection and an acknowledgement do to the log of a vault.
use mathlib.Core.Path.{subst}
use personal_knowledge_base.Base.{
  ℕ, ◌+◌, ◌≤◌, ltb, String, ◌≡◌, refl, ap, false, not, ◌||◌, some, List, arith, filter,
  if◌then◌else◌, Bool-cases, Option-cases, inl, inr,
}
use personal_knowledge_base.Server.Effects.{
  Effect, appends, keeps, acknowledge-Acks, same-Acks, finalize-FinalizedAs, keeps_then,
  logged_after,
}
use personal_knowledge_base.Base.Dict.{Dict, get}
use personal_knowledge_base.Base.Exec.{
  ok, raise_if, >>=_inv, ok-injective, raise_if-eq-ok, store_error,
}
use personal_knowledge_base.Models.{ManifestRecord, TombstoneRecord}
use personal_knowledge_base.Manifest.{CanonicalPayload}
use personal_knowledge_base.Paths.Decimal.{decimal}
use personal_knowledge_base.Server.Vault.{ServerDevice, GcResult, ServerVault, acknowledge}
use personal_knowledge_base.Server.Manifests.{finalize_manifest_payload}
use personal_knowledge_base.Server.Devices.{max_of, ack_vault}
use personal_knowledge_base.Server.Collect.{
  GcRun, gc_intent_id, gc_actor, is_nonempty, is_kept, active_vault_device_ids, write_gc_manifest,
  collect_head, run_tombstone_gc_locked,
}

module _ (nfc : String → String) (digest : CanonicalPayload → String) where
  write_gc_manifest-Effect :
      (v w : ServerVault) (run : GcRun) (m : ManifestRecord) (kept gone : List TombstoneRecord)
      → write_gc_manifest nfc digest v run m kept gone ≡ ok w
      → Effect v w
  unfolding write_gc_manifest
  write_gc_manifest-Effect v w run m kept gone e =
      let next = record m {
        base_revision = v.head_revision;
        created_by_device = gc_actor run.actor_device_id;
        created_at = run.now_ms;
        tombstones = kept;
      } in
      let (f, finalizes, e₁) =
        >>=_inv (finalize_manifest_payload nfc digest next (v.head_revision + 1)) _ e in
      let facts = finalize-FinalizedAs nfc digest next f (v.head_revision + 1) finalizes in
      subst (Effect v) (ok-injective e₁) (
        appends f (gc_intent_id run.run_id) _ facts.revised facts.based refl refl refl refl refl
          (inr (run.run_id, refl)) (same-Acks v _ refl))

  collect_head-Effect :
      (vault_id : String) (active : List String) (v w : ServerVault) (run : GcRun)
      (m : ManifestRecord) (result : GcResult)
      → collect_head nfc digest vault_id active v run m ≡ ok (result, w)
      → Effect v w
  unfolding collect_head
  collect_head-Effect vault_id active v w run m result e =
      let kept = is_kept v active run.now_ms run.min_retention_ms in
      let reclaimed = filter (λ r. not (kept r)) m.tombstones in
      let (u, wrote, e₁) =
        >>=_inv
          (if is_nonempty reclaimed
            then write_gc_manifest nfc digest v run m (filter kept m.tombstones) reclaimed
            else ok v)
          _ e in
      let effect : Effect v u = elim (Bool-cases (is_nonempty reclaimed)) [
        | inl some_gone ↦
            write_gc_manifest-Effect v u run m (filter kept m.tombstones) reclaimed
              (rw some_gone at wrote)
        | inr none_gone ↦
            subst (Effect v) (ok-injective (rw none_gone at wrote))
              (keeps refl refl refl refl (same-Acks v v refl))
      ] in
      let last = ap (λ (p : GcResult × ServerVault). p.1) (ok-injective e₁) in
      elim (Bool-cases (run.record_noop || is_nonempty reclaimed)) [
        | inl log ↦ subst (Effect v) (rw log at last) (logged_after v u _ effect)
        | inr skip ↦ subst (Effect v) (rw skip at last) effect
      ]

  pub run_gc-Effect :
      (devices : Dict ServerDevice) (vault_id : String) (v w : ServerVault) (run : GcRun)
      (result : GcResult)
      → run_tombstone_gc_locked nfc digest devices vault_id v run ≡ ok (result, w)
      → Effect v w
  unfolding run_tombstone_gc_locked
  run_gc-Effect devices vault_id v w run result e =
      elim (Option-cases (get v.manifests (decimal v.head_revision))) [
        | inr (m, has) ↦
            collect_head-Effect vault_id (active_vault_device_ids devices v) v w run m result
              (rw (has, run_tombstone_gc_locked) at e)
        | inl missing ↦
            let last =
              ap (λ (p : GcResult × ServerVault). p.1)
                (ok-injective (rw (missing, run_tombstone_gc_locked) at e)) in
            elim (Bool-cases run.record_noop) [
              | inl log ↦
                  subst (Effect v) (rw log at last)
                    (logged_after v v _ (keeps refl refl refl refl (same-Acks v v refl)))
              | inr skip ↦
                  subst (Effect v) (rw skip at last)
                    (keeps refl refl refl refl (same-Acks v v refl))
            ]
      ]

  pub ack_vault-Effect :
      (devices : Dict ServerDevice) (vault_id : String) (v w : ServerVault) (actor : String)
      (revisions : List ℕ) (now_ms : ℕ) (run_id : String)
      → ack_vault nfc digest devices vault_id v actor revisions now_ms run_id ≡ ok w
      → Effect v w
  unfolding ack_vault acknowledge
  ack_vault-Effect devices vault_id v w actor revisions now_ms run_id e =
      let (_, ahead, e₁) =
        >>=_inv
          (raise_if (ltb v.head_revision (max_of revisions)) (
            store_error "ack_revision_ahead_of_head"
              "Ack revision cannot exceed current vault head"))
          _ e in
      let le : max_of revisions ≤ v.head_revision =
        ground (arith, raise_if-eq-ok (ltb v.head_revision (max_of revisions)) _ ahead) in
      let u = acknowledge v actor (max_of revisions) in
      let run : GcRun = record {
        run_id = run_id;
        now_ms = now_ms;
        min_retention_ms = 604800000;
        inactive_after_ms = 604800000;
        actor_device_id = some actor;
        record_noop = false;
      } in
      let (done, ran, e₂) =
        >>=_inv (run_tombstone_gc_locked nfc digest devices vault_id u run) _ e₁ in
      keeps_then v u w refl refl refl refl (acknowledge-Acks v v actor (max_of revisions) refl le) (
        subst (Effect u) (ok-injective e₂) (run_gc-Effect devices vault_id u done.1 run done.0 ran))
