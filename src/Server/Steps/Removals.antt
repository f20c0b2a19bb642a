-- ===== src/Server/Steps/Removals.antt =====
-- sync_store.py: what the deletion of a device does to the log of each vault.
use mathlib.Core.Path.{subst}
use personal_knowledge_base.Base.{
  ℕ, String, ◌==◌, ◌≡◌, ap, Bool, not, Option, none, some, [], ◌∷◌, Bool-cases, Option-cases, inl,
  inr,
}
use personal_knowledge_base.Base.Dict.{Dict, get, put}
use personal_knowledge_base.Base.Exec.{ok, raise_if, >>=_inv, ok-injective}
use personal_knowledge_base.Manifest.{CanonicalPayload}
use personal_knowledge_base.Server.Vault.{
  ServerVault, ServerDevice, ServerState, empty_vault, ensure_vault,
}
use personal_knowledge_base.Server.Collect.{run_tombstone_gc_locked}
use personal_knowledge_base.Server.Removal.{
  may_delete, revoke, removal_run, collect_vaults, remove_device, delete_device,
}
use personal_knowledge_base.Server.Effects.{Effect}
use personal_knowledge_base.Server.Effects.Collect.{run_gc-Effect}
use personal_knowledge_base.Server.Steps.{nothing-Effect}

-- The vault of an id among some vaults.
abbrev vault_at : Dict ServerVault → String → ServerVault
vault_at vaults j = elim (get vaults j) [ none ↦ empty_vault | some vault ↦ vault ]

-- The first vault, or one of the others.
head_or_rest :
    (i j : String) (v w : ServerVault) (vs ws : Dict ServerVault)
    → Effect v w
    → Effect (vault_at vs j) (vault_at ws j)
    → Effect (vault_at ((i, v) ∷ vs) j) (vault_at ((i, w) ∷ ws) j)
unfolding get
head_or_rest i j v w vs ws here later = elim (Bool-cases (i == j)) [
  | inl e ↦ rw (e, vault_at) here
  | inr e ↦ rw (e, vault_at) later
]

module _ (nfc : String → String) (digest : CanonicalPayload → String)
    (run_id : String → String) where
  collect_vaults-Effect :
      (devices : Dict ServerDevice) (now_ms : ℕ) (before after : Dict ServerVault) (j : String)
      → collect_vaults nfc digest run_id devices now_ms before ≡ ok after
      → Effect (vault_at before j) (vault_at after j)
  unfolding collect_vaults
  collect_vaults-Effect devices now_ms [] after j e =
      subst (λ d. Effect (vault_at [] j) (vault_at d j)) (ok-injective e)
        (nothing-Effect (vault_at [] j))
  collect_vaults-Effect devices now_ms ((i, v) ∷ rest) after j e =
      let run = removal_run run_id i now_ms in
      let (done, ran, e₁) = >>=_inv (run_tombstone_gc_locked nfc digest devices i v run) _ e in
      let (others, collected, e₂) =
        >>=_inv (collect_vaults nfc digest run_id devices now_ms rest) _ e₁ in
      subst (λ d. Effect (vault_at ((i, v) ∷ rest) j) (vault_at d j)) (ok-injective e₂)
        (head_or_rest i j v done.1 rest others
          (run_gc-Effect nfc digest devices i v done.1 run done.0 ran)
          (collect_vaults-Effect devices now_ms rest others j collected))

  pub delete_device-Effect :
      (s t : ServerState) (device_id j : String) (actor : Option String) (revoked_at_ms now_ms : ℕ)
      (deleted : Bool)
      → delete_device nfc digest run_id s device_id actor revoked_at_ms now_ms ≡ ok (deleted, t)
      → Effect (ensure_vault s j) (ensure_vault t j)
  unfolding delete_device remove_device ensure_vault
  delete_device-Effect s t device_id j actor revoked_at_ms now_ms deleted e =
      elim (Option-cases (get s.devices device_id)) [
        | inl unknown ↦
            subst (λ (x : ServerState). Effect (ensure_vault s j) (ensure_vault x j))
              (ap (λ (p : Bool × ServerState). p.1)
                (ok-injective (rw (unknown, delete_device) at e)))
              (nothing-Effect (ensure_vault s j))
        | inr (device, known) ↦
            let devices = put s.devices device_id (revoke device revoked_at_ms) in
            let (_, _, e₁) =
              >>=_inv (raise_if (not (may_delete s.devices device actor)) _) _
                (rw (known, delete_device) at e) in
            let (vaults, collected, e₂) =
              >>=_inv (collect_vaults nfc digest run_id devices now_ms s.vaults) _ e₁ in
            subst (λ (x : ServerState). Effect (ensure_vault s j) (ensure_vault x j))
              (ap (λ (p : Bool × ServerState). p.1) (ok-injective e₂))
              (collect_vaults-Effect devices now_ms s.vaults vaults j collected)
      ]
