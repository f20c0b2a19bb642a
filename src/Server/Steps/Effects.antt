-- ===== src/Server/Steps/Effects.antt =====
-- sync_store.py: what a call does to the log of each vault.
use mathlib.Core.Path.{subst}
use personal_knowledge_base.Base.{
  ℕ, nat_eq, String, ◌==◌, eq_iff, ◌≡◌, refl, ap, sym, ◌∙◌, not, Option, arith,
}
use personal_knowledge_base.Base.Exec.{
  ok, raise_if, >>=_inv, ok-injective, raise_if-eq-ok, store_error,
}
use personal_knowledge_base.Manifest.{CanonicalPayload}
use personal_knowledge_base.Server.Vault.{
  FileVersionSource, ServerVault, ServerState, ensure_vault, save_vault,
}
use personal_knowledge_base.Server.Commits.{
  CommitRequest, CommitResponse, committing_device, commit_mutation, create_commit,
}
use personal_knowledge_base.Server.Effects.{Effect}
use personal_knowledge_base.Server.Effects.Commits.{Answers, commit_mutation-Effect}
use personal_knowledge_base.Server.Steps.{
  ServerStep, commits, acknowledges, collects, lists, beats, touches, heads, updates, deletes,
  elsewhere, CommitsPast, ensure-save, nothing-Effect, save-Effect,
}
use personal_knowledge_base.Server.Steps.Calls.{
  ack_revisions-Effect, run_tombstone_gc-Effect, list_vault_devices-Effect, heartbeat-Effect,
  touch-vaults, get_vault_head-Effect, update_file_version-Effect,
}
use personal_knowledge_base.Server.Steps.Removals.{delete_device-Effect}

module _ (nfc : String → String) (digest : CanonicalPayload → String)
    (name : (vault_id file_id : String) (revision : ℕ) (blob_id : String)
      → FileVersionSource
      → String) where
  pub create_commit_inv :
      (s t : ServerState) (vault_id : String) (request : CommitRequest) (auth : Option String)
      (now_ms : ℕ) (response : CommitResponse)
      → create_commit nfc digest name s vault_id request auth now_ms ≡ ok (response, t)
      → (done : CommitResponse × ServerVault) × (request.manifest.base_revision
          ≡ request.base_revision)
        × (commit_mutation nfc digest name s.blobs
              (ensure_vault s vault_id)
              request
              (committing_device request auth)
              now_ms
            ≡ ok done)
        × (◌≡◌ {A = CommitResponse × ServerState}
            (done.0, save_vault s vault_id done.1)
            (response, t))
  unfolding create_commit
  create_commit_inv s t vault_id request auth now_ms response e =
      let (_, _, e₁) = >>=_inv (raise_if (request.commit_intent_id == "") _) _ e in
      let (_, _, e₂) = >>=_inv (raise_if (request.intent_manifest_hash == "") _) _ e₁ in
      let (_, _, e₃) = >>=_inv (raise_if (not (request.manifest.vault_id == vault_id)) _) _ e₂ in
      let (_, based, e₄) =
        >>=_inv
          (raise_if (not (nat_eq request.manifest.base_revision request.base_revision)) (
            store_error "invalid_manifest"
              "manifest.base_revision must match request base_revision"))
          _ e₃ in
      let (_, _, e₅) = >>=_inv (raise_if (committing_device request auth == "") _) _ e₄ in
      let v = ensure_vault s vault_id in
      let (done, ran, e₆) =
        >>=_inv
          (commit_mutation nfc digest name s.blobs v request (committing_device request auth)
            now_ms)
          _ e₅ in
      (
        done,
        ground (
          arith,
          raise_if-eq-ok (not (nat_eq request.manifest.base_revision request.base_revision)) _
              based,
        ),
        ran,
        ok-injective e₆,
      )

  pub create_commit-Effect :
      (s t : ServerState) (vault_id j : String) (request : CommitRequest) (auth : Option String)
      (now_ms : ℕ) (response : CommitResponse)
      → ((i : String) → CommitsPast (ensure_vault s i))
      → create_commit nfc digest name s vault_id request auth now_ms ≡ ok (response, t)
      → Effect (ensure_vault s j) (ensure_vault t j)
        × Answers request response (ensure_vault t vault_id)
  create_commit-Effect s t vault_id j request auth now_ms response past e =
      let (done, same_base, ran, end) =
        create_commit_inv s t vault_id request auth now_ms response e in
      let (effect, answers) =
        commit_mutation-Effect nfc digest name s.blobs (ensure_vault s vault_id) done.1 request
          (committing_device request auth) now_ms done.0 (past vault_id) same_base ran in
      let saved : ensure_vault (save_vault s vault_id done.1) vault_id ≡ done.1 =
        ensure-save s vault_id vault_id done.1 ∙ rw ((eq_iff vault_id vault_id).1 refl) refl in
      subst
        (λ (p : CommitResponse × ServerState).
          Effect (ensure_vault s j) (ensure_vault p.1 j)
          × Answers request p.0 (ensure_vault p.1 vault_id))
        end
        (save-Effect s vault_id j done.1 effect, subst (Answers request done.0) (sym saved) answers)

  -- A call that returns keeps the log of each vault, or appends one manifest to it.
  pub step-Effect :
      (s t : ServerState) (j : String)
      → ((i : String) → CommitsPast (ensure_vault s i))
      → ServerStep nfc digest name s t
      → Effect (ensure_vault s j) (ensure_vault t j)
  step-Effect s t j past (commits i request auth now r e) =
      (create_commit-Effect s t i j request auth now r past e).0
  step-Effect s t j past (acknowledges i ns d now run n e) =
      ack_revisions-Effect nfc digest s t i j ns d now run n e
  step-Effect s t j past (collects i run r e) = run_tombstone_gc-Effect nfc digest s t i j run r e
  step-Effect s t j past (lists i c now n ds e) = list_vault_devices-Effect s t i j c now n ds e
  step-Effect s t j past (beats i d now r e) = heartbeat-Effect s t i j d now r e
  step-Effect s t j past (touches d now e) =
      subst (Effect (ensure_vault s j))
        (sym (touch-vaults s j d now) ∙ ap (λ x. ensure_vault x j) e)
        (nothing-Effect (ensure_vault s j))
  step-Effect s t j past (heads i r e) = get_vault_head-Effect s t i j r e
  step-Effect s t j past (updates i n p u e) = update_file_version-Effect s t i j n p u e
  step-Effect s t j past (deletes run i a at now d e) =
      delete_device-Effect nfc digest run s t i j a at now d e
  step-Effect s t j past (elsewhere same) =
      subst (Effect (ensure_vault s j)) (sym (same j)) (nothing-Effect (ensure_vault s j))
