-- ===== src/Server/Reclaimed.antt =====
-- sync_store.py: which deletions the garbage collection drops.
use mathlib.Core.Path.{subst}
use personal_knowledge_base.Base.{
  ℕ, ◌+◌, ◌-◌, ◌≤◌, ltb, nat_eq, String, ◌≡◌, ◌↔◌, refl, ap, sym, ◌∙◌, Bool, true, false, not, ◌||◌,
  Option, none, some, List, [], ◌∷◌, Has, Has-filter, Has-of_filter, filter, Bool-cases, arith,
  if◌then◌else◌, inl, inr,
}
use personal_knowledge_base.Models.{TombstoneRecord, ManifestRecord}
use personal_knowledge_base.Manifest.{CanonicalPayload}
use personal_knowledge_base.Server.Vault.{ServerVault, ServerDevice, GcResult}
use personal_knowledge_base.Server.Active.{AllAcked, IsActive, AllAcked-iff}
use personal_knowledge_base.Server.Manifests.{
  Deletes, finalize_manifest_payload, finalize-tombstone_ids,
}
use personal_knowledge_base.Base.Dict.{Dict, get, get-put_same}
use personal_knowledge_base.Base.Exec.{ok, >>=_inv, ok-injective}
use personal_knowledge_base.Paths.Decimal.{decimal}
use personal_knowledge_base.Server.Collect.{
  GcRun, gc_actor, write_gc_manifest, collect_head, append_tombstone_gc_log,
  active_vault_device_ids, run_tombstone_gc_locked, acked_by, blocking_devices, why_blocked,
  is_kept, is_nonempty, retention_remaining,
}

-- A deletion that can go: it is committed at a revision that every active device has acknowledged, and
-- its time is over.
pub record Reclaimable (devices : Dict ServerDevice) (v : ServerVault) (now_ms min_retention_ms : ℕ)
    (r : TombstoneRecord) : Type 0 where
  pub revision : ℕ
  pub dated_at : r.deleted_revision ≡ some revision
  pub positive : 1 ≤ revision
  pub all_acked : (i : String) (acked : ℕ) → IsActive devices v i acked → revision ≤ acked
  pub expired : min_retention_ms ≤ now_ms - r.deleted_at

blocking-AllAcked :
    (v : ServerVault) (devices : List String) (revision : ℕ)
    → is_nonempty (blocking_devices v devices revision) ≡ false
    → AllAcked v devices revision
unfolding blocking_devices
blocking-AllAcked v [] revision e = tt
blocking-AllAcked v (i ∷ rest) revision e = elim (Bool-cases (ltb (acked_by v i) revision)) [
  | inl behind ↦ absurd (let clash = rw behind at e in cc)
  | inr acked ↦ (ground (arith, acked), blocking-AllAcked v rest revision (rw acked at e))
]

AllAcked-blocking :
    (v : ServerVault) (devices : List String) (revision : ℕ)
    → AllAcked v devices revision
    → is_nonempty (blocking_devices v devices revision) ≡ false
unfolding blocking_devices
AllAcked-blocking v [] revision h = refl
AllAcked-blocking v (i ∷ rest) revision h =
    let acked : ltb (acked_by v i) revision ≡ false = ground (arith, h.0) in
    rw acked (AllAcked-blocking v rest revision h.1)

or_false : (a b : Bool) → (a || b) ≡ false → (a ≡ false) × (b ≡ false)
or_false true b h = cc
or_false false b h = (refl, h)

module _ (known : Dict ServerDevice) (v : ServerVault) (now_ms min_retention_ms : ℕ) where
  abbrev devices : List String
  devices = active_vault_device_ids known v

  dropped-Reclaimable :
      (r : TombstoneRecord) (d : Option ℕ)
      → r.deleted_revision ≡ d
      → is_kept v devices now_ms min_retention_ms r ≡ false
      → Reclaimable known v now_ms min_retention_ms r
  unfolding why_blocked
  dropped-Reclaimable r none at e = absurd (let clash = rw at at e in cc)
  dropped-Reclaimable r (some n) at e = elim (Bool-cases (nat_eq n 0)) [
    | inl z ↦ absurd (let clash = rw (at, z) at e in cc)
    | inr nz ↦
        elim (Bool-cases (
          is_nonempty (blocking_devices v devices n)
          || ltb 0 (retention_remaining now_ms min_retention_ms r))) [
            | inl b ↦ absurd (let clash = rw (at, nz, b) at e in cc)
            | inr free ↦
                (let (none_behind, no_time) = or_false _ _ free in
                  record {
                    revision = n;
                    dated_at = at;
                    positive = ground (arith, nz);
                    all_acked =
                        (AllAcked-iff known v n).0 (blocking-AllAcked v devices n none_behind);
                    expired = ground (arith, no_time);
                  })
          ]
  ]

  Reclaimable-dropped :
      (r : TombstoneRecord)
      → Reclaimable known v now_ms min_retention_ms r
      → is_kept v devices now_ms min_retention_ms r ≡ false
  unfolding why_blocked
  Reclaimable-dropped r h =
      let nz : nat_eq h.revision 0 ≡ false = ground (arith, h.positive) in
      let none_behind =
        AllAcked-blocking v devices h.revision ((AllAcked-iff known v h.revision).1 h.all_acked) in
      let no_time : ltb 0 (retention_remaining now_ms min_retention_ms r) ≡ false =
        ground (arith, h.expired) in
      rw (h.dated_at, nz, none_behind, no_time) refl

filter-nonempty :
    (p : TombstoneRecord → Bool) (xs : List TombstoneRecord)
    → is_nonempty (filter p xs) ≡ false
    → (r : TombstoneRecord) → Has r xs
    → p r ≡ false
filter-nonempty p [] e r h = absurd h
filter-nonempty p (x ∷ xs) e r h = elim (Bool-cases (p x)) [
  | inl passes ↦ absurd (let clash = rw passes at e in cc)
  | inr fails ↦ elim h [
    | inl same ↦ ap p same ∙ fails
    | inr later ↦ filter-nonempty p xs (rw fails at e) r later
  ]
]

-- The manifest lists a deletion of the file that the test keeps.
abbrev pub Keeps : ManifestRecord → (TombstoneRecord → Type 0) → String → Type 0
Keeps m IsGone i = (r : TombstoneRecord) × Has r m.tombstones × (r.file_id ≡ i) × (IsGone r → ⊥)

module _ (nfc : String → String) (digest : CanonicalPayload → String) where
  module _ (vault_id : String) (known : Dict ServerDevice) (v w : ServerVault) (run : GcRun)
      (m : ManifestRecord) (result : GcResult) where
    abbrev active : List String
    active = active_vault_device_ids known v

    abbrev IsGone : TombstoneRecord → Type 0
    IsGone = Reclaimable known v run.now_ms run.min_retention_ms

    abbrev kept : TombstoneRecord → Bool
    kept = is_kept v active run.now_ms run.min_retention_ms

    filtered-Keeps :
        (i : String)
        → ((r : TombstoneRecord) × Has r (filter kept m.tombstones) × (r.file_id ≡ i))
          ↔ Keeps m IsGone i
    filtered-Keeps i = (
      λ (r, has, id).
          let (here, keeps) = Has-of_filter kept r m.tombstones has in
          (
            r,
            here,
            id,
            λ gone.
                (let clash =
                    sym keeps
                    ∙ Reclaimable-dropped known v run.now_ms run.min_retention_ms r gone in
                  cc),
          ),
      λ (r, has, id, stays). elim (Bool-cases (kept r)) [
        | inl keeps ↦ (r, Has-filter kept r m.tombstones has keeps, id)
        | inr drops ↦ absurd (
            stays (
              dropped-Reclaimable known v run.now_ms run.min_retention_ms r r.deleted_revision refl
                drops))
      ],
    )

    all_kept :
        is_nonempty (filter (λ r. not (kept r)) m.tombstones) ≡ false
        → (i : String) → Deletes m i ↔ Keeps m IsGone i
    all_kept none_gone i = (
      λ (r, has, id). (
        r,
        has,
        id,
        λ gone.
            (let clash =
                sym (ap not (Reclaimable-dropped known v run.now_ms run.min_retention_ms r gone))
                ∙ filter-nonempty (λ x. not (kept x)) m.tombstones none_gone r has in
              cc),
      ),
      λ (r, has, id, _). (r, has, id),
    )

    -- The head after the run has a manifest that deletes what the run keeps.
    Kept : ServerVault → Type 0
    Kept u =
        (f : ManifestRecord) × (get u.manifests (decimal u.head_revision) ≡ some f)
        × ((i : String) → Deletes f i ↔ Keeps m IsGone i)

    written-Kept :
        (u : ServerVault)
        → write_gc_manifest nfc digest v run m
            (filter kept m.tombstones)
            (filter (λ r. not (kept r)) m.tombstones)
          ≡ ok u
        → Kept u
    unfolding write_gc_manifest Kept
    written-Kept u e =
        let next = record m {
          base_revision = v.head_revision;
          created_by_device = gc_actor run.actor_device_id;
          created_at = run.now_ms;
          tombstones = filter kept m.tombstones;
        } in
        let (f, finalizes, e₁) =
          >>=_inv (finalize_manifest_payload nfc digest next (v.head_revision + 1)) _ e in
        subst Kept (ok-injective e₁) (
          f,
          get-put_same v.manifests (decimal (v.head_revision + 1)) f,
          λ i.
              let ids =
                finalize-tombstone_ids nfc digest next f (v.head_revision + 1) finalizes i in
              let exact = filtered-Keeps i in (λ d. exact.0 (ids.0 d), λ k. ids.1 (exact.1 k)),
        )

    collect_head-Kept :
        get v.manifests (decimal v.head_revision) ≡ some m
        → collect_head nfc digest vault_id active v run m ≡ ok (result, w)
        → Kept w
    unfolding collect_head append_tombstone_gc_log Kept
    collect_head-Kept has e =
        let reclaimed = filter (λ r. not (kept r)) m.tombstones in
        let (u, wrote, e₁) =
          >>=_inv
            (if is_nonempty reclaimed
              then write_gc_manifest nfc digest v run m (filter kept m.tombstones) reclaimed
              else ok v)
            _ e in
        let at_u : Kept u = elim (Bool-cases (is_nonempty reclaimed)) [
          | inl some_gone ↦ written-Kept u (rw some_gone at wrote)
          | inr none_gone ↦
              subst Kept (ok-injective (rw none_gone at wrote)) (m, has, all_kept none_gone)
        ] in
        let last = ap (λ (p : GcResult × ServerVault). p.1) (ok-injective e₁) in
        elim (Bool-cases (run.record_noop || is_nonempty reclaimed)) [
          | inl log ↦ subst Kept (rw log at last) at_u
          | inr skip ↦ subst Kept (rw skip at last) at_u
        ]

  -- After a run of the garbage collection in a vault whose head has a manifest, the head's manifest deletes
  -- exactly the files of those deletions that the run could not reclaim: the ones without a positive
  -- revision; those that some device has not acknowledged, of the devices with a name and an
  -- acknowledgement in the vault and no record that says they are revoked; and those whose time is not over.
  pub run_gc-Kept :
      (devices : Dict ServerDevice) (vault_id : String) (v w : ServerVault) (run : GcRun)
      (m : ManifestRecord) (result : GcResult)
      → get v.manifests (decimal v.head_revision) ≡ some m
      → run_tombstone_gc_locked nfc digest devices vault_id v run ≡ ok (result, w)
      → (f : ManifestRecord) × (get w.manifests (decimal w.head_revision) ≡ some f)
        × ((i : String)
            → Deletes f i ↔ Keeps m (Reclaimable devices v run.now_ms run.min_retention_ms) i)
  unfolding run_tombstone_gc_locked Kept
  run_gc-Kept devices vault_id v w run m result has e =
      collect_head-Kept vault_id devices v w run m result has
        (rw (has, run_tombstone_gc_locked) at e)
