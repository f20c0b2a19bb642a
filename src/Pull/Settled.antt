-- ===== src/Pull/Settled.antt =====
-- sync_reconcile.py: a reconciliation that returns has caught up with the server.
use mathlib.Core.Path.{subst}
use personal_knowledge_base.Base.{
  ℕ, ◌≤◌, String, ◌==◌, nat_eq, ◌≡◌, refl, ap, Bool, true, false, not, Option, none, some, is_some,
  List, [], ◌∷◌, arith, Bool-cases, inl, inr, if◌then◌else◌,
}
use personal_knowledge_base.Base.Exec.{
  Result, ok, raise_if, require, ok-injective, raise_if-eq-ok, value_error, key_error,
}
use personal_knowledge_base.Base.State.{Action, pure, continue_inv}
use personal_knowledge_base.Models.{
  FileMapDocument, TombstoneRecord, ManifestRecord, VaultStateRecord, new_vault_state_record,
  SummaryStatus, valid, stale, missing, is_valid,
}
use personal_knowledge_base.Manifest.{CanonicalPayload, compute_manifest_summary_hash}
use personal_knowledge_base.Recovery.{apply_manifest_reconciled_state, requires_full_pull}
use personal_knowledge_base.Store.Rows.{load_vault_state}
use personal_knowledge_base.Pull.Plan.{ReconcilePlan, plan_pull_reconcile}
use personal_knowledge_base.Pull.Apply.{
  Local, AppliedManifestResult, ReconcileResult, persist_manifest_convergence,
  apply_pulled_manifest, reconcile_download, execute_pull_reconcile,
}

-- There is nothing to download at this head.
abbrev is_settled : VaultStateRecord → ℕ → Bool
is_settled state head = not (plan_pull_reconcile state head).should_download_manifest

reconciled_settled :
    (s t : VaultStateRecord) (head : ℕ) (summary : String)
    → apply_manifest_reconciled_state s head summary ≡ ok t
    → is_settled t head ≡ true
unfolding apply_manifest_reconciled_state new_vault_state_record plan_pull_reconcile
    requires_full_pull
reconciled_settled s t head summary e = ground arith

valid_of : (status : SummaryStatus) → is_valid status ≡ true → status ≡ valid
valid_of valid e = refl
valid_of stale e = absurd cc
valid_of missing e = absurd cc

some_of : (o : Option String) → is_some o ≡ true → (t : String) × (o ≡ some t)
some_of none e = absurd cc
some_of (some t) e = (t, refl)

settled-facts :
    (s : VaultStateRecord) (head : ℕ)
    → is_settled s head ≡ true
    → (head ≤ s.last_applied_revision)
      × (s.last_manifest_summary_status ≡ valid)
      × ((summary : String) × (s.last_manifest_summary ≡ some summary))
unfolding plan_pull_reconcile requires_full_pull
settled-facts s head h =
    let (full, summary) : (is_valid s.last_manifest_summary_status ≡ true)
        × (is_some s.last_manifest_summary ≡ true) =
      ground arith in
    (
      ground arith,
      valid_of s.last_manifest_summary_status full,
      some_of s.last_manifest_summary summary,
    )

-- Which branch ran.
ran_then :
    {A : Type 0} (b : Bool) (x y : Action Local A) (s : Local) {w : Result A × Local}
    → b ≡ true
    → (if b then x else y) s ≡ w
    → x s ≡ w
ran_then b x y s d e = rw d at e

ran_else :
    {A : Type 0} (b : Bool) (x y : Action Local A) (s : Local) {w : Result A × Local}
    → b ≡ false
    → (if b then x else y) s ≡ w
    → y s ≡ w
ran_else b x y s d e = rw d at e

module _ (nfc : String → String) (digest : CanonicalPayload → String) (document : FileMapDocument)
    (tombstones : List TombstoneRecord) (now : ℕ) where
  applied_settled :
      (manifest : ManifestRecord) (before after : Local) (result : AppliedManifestResult)
      → apply_pulled_manifest nfc digest document manifest tombstones now before
        ≡ (ok result, after)
      → is_settled result.state manifest.revision ≡ true
  unfolding apply_pulled_manifest
  applied_settled manifest before after result e =
      let (state, found, e₁) =
        continue_inv
          (require (load_vault_state before.database manifest.vault_id)
            (key_error "vault_state not found" (manifest.vault_id ∷ [])))
          before _ e in
      let persisted = persist_manifest_convergence document manifest tombstones now before in
      let (converged, kept, e₂) = continue_inv persisted.0 persisted.1 _ e₁ in
      let (updated, reconciled, e₃) =
        continue_inv
          (apply_manifest_reconciled_state state manifest.revision
            (compute_manifest_summary_hash nfc digest manifest))
          persisted.1 _ e₂ in
      subst (λ r. is_settled r.state manifest.revision ≡ true) (ok-injective (ap (λ p. p.0) e₃))
        (reconciled_settled state updated manifest.revision
          (compute_manifest_summary_hash nfc digest manifest) reconciled)

  download_settled :
      (plan : ReconcilePlan) (state : VaultStateRecord) (given : Option ManifestRecord)
      (before after : Local) (result : ReconcileResult)
      → reconcile_download nfc digest plan document state tombstones now given before
        ≡ (ok result, after)
      → is_settled result.state plan.target_revision ≡ true
  unfolding reconcile_download
  download_settled plan state given before after result e =
      let (manifest, is_given, e₁) =
        continue_inv
          (require given
            (value_error "manifest is required when reconcile plan requires a download" []))
          before _ e in
      let (_, same_vault, e₂) =
        continue_inv
          (raise_if (not (manifest.vault_id == state.vault_id))
            (value_error "manifest vault_id does not match current state" []))
          before _ e₁ in
      let (_, same_revision, e₃) =
        continue_inv
          (raise_if (not (nat_eq manifest.revision plan.target_revision))
            (value_error "manifest revision does not match reconcile target_revision" []))
          before _ e₂ in
      let pulled = apply_pulled_manifest nfc digest document manifest tombstones now before in
      let (applied, returned, e₄) = continue_inv pulled.0 pulled.1 _ e₃ in
      let at_target : manifest.revision ≡ plan.target_revision = ground (
        arith,
        raise_if-eq-ok (not (nat_eq manifest.revision plan.target_revision))
            (value_error "manifest revision does not match reconcile target_revision" [])
            same_revision,
      ) in
      subst (λ (r : VaultStateRecord). is_settled r plan.target_revision ≡ true)
        (ap (λ (r : ReconcileResult). r.state) (ok-injective (ap (λ p. p.0) e₄)))
        (subst (λ n. is_settled applied.state n ≡ true) at_target
          (applied_settled manifest before pulled.1 applied (ap (λ r. (r, pulled.1)) returned)))

  reconcile-is_settled :
      (state : VaultStateRecord) (head : ℕ) (manifest : Option ManifestRecord)
      (before after : Local) (result : ReconcileResult)
      → execute_pull_reconcile nfc digest document state tombstones head now manifest before
        ≡ (ok result, after)
      → is_settled result.state head ≡ true
  unfolding execute_pull_reconcile
  reconcile-is_settled state head given before after result e =
      let plan = plan_pull_reconcile state head in
      let download = reconcile_download nfc digest plan document state tombstones now given in
      let keep = pure (record { plan = plan; state = state; applied = none }) in
      elim (Bool-cases plan.should_download_manifest) [
        | inl d ↦
            download_settled plan state given before after result
              (ran_then plan.should_download_manifest download keep before d e)
        | inr d ↦
            subst (λ (r : VaultStateRecord). is_settled r head ≡ true)
              (ap (λ (r : ReconcileResult). r.state)
                (ok-injective (
                  ap (λ p. p.0) (ran_else plan.should_download_manifest download keep before d e))))
              (ap not d)
      ]

  -- After a reconciliation that returns the state has applied the head that it observed, or a later
  -- revision, and has a manifest summary, which is marked valid.
  pub reconcile-settled :
      (state : VaultStateRecord) (head : ℕ) (manifest : Option ManifestRecord)
      (before after : Local) (result : ReconcileResult)
      → execute_pull_reconcile nfc digest document state tombstones head now manifest before
        ≡ (ok result, after)
      → (head ≤ result.state.last_applied_revision)
        × (result.state.last_manifest_summary_status ≡ valid)
        × ((summary : String) × (result.state.last_manifest_summary ≡ some summary))
  reconcile-settled state head given before after result e =
      settled-facts result.state head (reconcile-is_settled state head given before after result e)
