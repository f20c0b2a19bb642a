-- ===== src/Server/Active.antt =====
-- sync_store.py: the devices of a vault that the garbage collection waits for.
use mathlib.Core.Path.{subst}
use personal_knowledge_base.Base.{
  ℕ, ◌≤◌, String, ◌≡◌, ◌↔◌, refl, ap, sym, ◌∙◌, true, false, not, map, eq_iff, ◌==◌, ◌≢◌,
  Option-cases, some, List, [], ◌∷◌, All, All-Has, All-of_Has, Has, Has-filter, Has-of_filter,
  filter, Bool-cases, arith, inl, inr,
}
use personal_knowledge_base.Server.Vault.{ServerVault, ServerDevice, or_zero}
use personal_knowledge_base.Base.Text.{str_leb}
use personal_knowledge_base.Base.Sort.{sorted-Has, Has-sorted}
use personal_knowledge_base.Base.Dict.{Dict, get}
use personal_knowledge_base.Server.Collect.{
  active_vault_device_ids, acked_by, is_revoked, entry_key, joined_vault_device_ids,
}

-- Every listed device has acknowledged the revision.
abbrev pub AllAcked : ServerVault → List String → ℕ → Type 0
AllAcked v devices revision = All (λ i. revision ≤ acked_by v i) devices

-- A device with a name has an acknowledgement in the vault, and no record that says it is revoked.
pub record IsActive (devices : Dict ServerDevice) (v : ServerVault) (i : String) (acked : ℕ)
    : Type 0 where
  pub named : i ≢ ""
  pub joined : get v.acks i ≡ some acked
  pub live : (d : ServerDevice) → get devices i ≡ some d → d.revoked ≡ false

live_of :
    (devices : Dict ServerDevice) (i : String)
    → is_revoked devices i ≡ false
    → (d : ServerDevice) → get devices i ≡ some d
    → d.revoked ≡ false
live_of devices i e d has = rw (has, is_revoked) at e

not_revoked :
    (devices : Dict ServerDevice) (i : String)
    → ((d : ServerDevice) → get devices i ≡ some d → d.revoked ≡ false)
    → is_revoked devices i ≡ false
not_revoked devices i live = elim (Option-cases (get devices i)) [
  | inl unknown ↦ rw (unknown, is_revoked) refl
  | inr (d, known) ↦ rw (known, is_revoked) (live d known)
]

Has-key : (acks : Dict ℕ) (i : String) (n : ℕ) → get acks i ≡ some n → Has i (map entry_key acks)
unfolding get
Has-key [] i n h = cc
Has-key ((j, m) ∷ acks) i n h = elim (Bool-cases (j == i)) [
  | inl e ↦ inl (sym ((eq_iff j i).0 e))
  | inr e ↦ inr (Has-key acks i n (rw e at h))
]

get-key :
    (acks : Dict ℕ) (i : String) → Has i (map entry_key acks) → (n : ℕ) × (get acks i ≡ some n)
unfolding get
get-key [] i h = absurd h
get-key ((j, m) ∷ acks) i h = elim (Bool-cases (j == i)) [
  | inl e ↦ (m, rw e refl)
  | inr e ↦ elim h [
    | inl same ↦ absurd (let clash = sym e ∙ (eq_iff j i).1 (sym same) in cc)
    | inr later ↦ let (n, has) = get-key acks i later in (n, rw e has)
  ]
]

-- The list of active devices that the run makes has these devices and no other.
module _ (devices : Dict ServerDevice) (v : ServerVault) where
  Has-active :
      (i : String) (n : ℕ) → IsActive devices v i n → Has i (active_vault_device_ids devices v)
  unfolding active_vault_device_ids joined_vault_device_ids
  Has-active i n a =
      let named : not (i == "") ≡ true = ground (arith, eq_iff i "", a.named) in
      Has-filter (λ x. not (is_revoked devices x)) i (joined_vault_device_ids v)
        (sorted-Has str_leb i (filter (λ x. not (x == "")) (map entry_key v.acks)) (
          Has-filter (λ x. not (x == "")) i (map entry_key v.acks) (Has-key v.acks i n a.joined)
            named))
        (ap not (not_revoked devices i a.live))

  IsActive-of_Has :
      (i : String) → Has i (active_vault_device_ids devices v) → (n : ℕ) × IsActive devices v i n
  unfolding active_vault_device_ids joined_vault_device_ids
  IsActive-of_Has i h =
      let (joined, live) =
        Has-of_filter (λ x. not (is_revoked devices x)) i (joined_vault_device_ids v) h in
      let (key, named) =
        Has-of_filter (λ x. not (x == "")) i (map entry_key v.acks)
          (Has-sorted str_leb i (filter (λ x. not (x == "")) (map entry_key v.acks)) joined) in
      let (n, acked) = get-key v.acks i key in
      (
        n,
        record {
          named = λ e. ground (arith, named, (eq_iff i "").1 e);
          joined = acked;
          live = live_of devices i (ground (arith, live));
        },
      )

  pub AllAcked-iff :
      (revision : ℕ)
      → AllAcked v (active_vault_device_ids devices v) revision
        ↔ ((i : String) (n : ℕ) → IsActive devices v i n → revision ≤ n)
  AllAcked-iff revision = (
    λ h i n a.
        let le =
          All-Has (λ x. revision ≤ acked_by v x) i (active_vault_device_ids devices v) h
            (Has-active i n a) in
        rw a.joined at le,
    λ h.
        All-of_Has (λ x. revision ≤ acked_by v x) (active_vault_device_ids devices v)
          (λ i has.
            let (n, a) = IsActive-of_Has i has in
            let le : revision ≤ or_zero (some n) = h i n a in
            subst (λ o. revision ≤ or_zero o) (sym a.joined) le),
  )
