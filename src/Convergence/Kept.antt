-- ===== src/Convergence/Kept.antt =====
-- convergence.py: which tombstones a convergence drops.
use mathlib.Core.Path.{subst}
use personal_knowledge_base.Base.{
  ℕ, String, ◌==◌, eq_iff, ◌≡◌, ◌≤◌, refl, sym, ap, ◌∙◌, Bool, true, false, not, ◌&&◌, ◌||◌, some,
  List, [], ◌∷◌, filter, arith, Has, Has-of_filter, Has-of_any, inl, inr, Bool-cases, Option-cases,
}
use personal_knowledge_base.Base.Sort.{sorted}
use personal_knowledge_base.Base.Exec.{ok, >>=_inv, ok-injective}
use personal_knowledge_base.Models.{TombstoneRecord, ManifestRecord, FileMapDocument}
use personal_knowledge_base.Convergence.Defs.{
  among, merge_manifest_tombstones, is_reclaimable, select_reclaimable_tombstones, seq_leb,
  ManifestConvergenceResult, converge_manifest_state, rebuild_filemap_from_manifest,
}
use personal_knowledge_base.Convergence.Tombstones.{merge-local, among-merge}
use personal_knowledge_base.Convergence.Merge.{among-sorted}

among-filter_id :
    (p : String → Bool) (xs : List TombstoneRecord) (j : String)
    → among (filter (λ r. p r.file_id) xs) j ≡ (among xs j && p j)
among-filter_id p [] j = refl
among-filter_id p (x ∷ xs) j = elim (Bool-cases (x.file_id == j)) [
  | inl e ↦ ground (arith, among-filter_id p xs j, ap p ((eq_iff x.file_id j).0 e))
  | inr e ↦ ground (arith, among-filter_id p xs j)
]

-- What is reclaimed is not in the manifest.
among-reclaimable :
    (manifest : List TombstoneRecord) (target : ℕ) (xs : List TombstoneRecord) (j : String)
    → among manifest j ≡ true
    → among (select_reclaimable_tombstones xs manifest target) j ≡ false
unfolding select_reclaimable_tombstones
among-reclaimable m t [] j h = refl
among-reclaimable m t (x ∷ xs) j h = elim (Bool-cases (x.file_id == j)) [
  | inl e ↦ ground (arith, among-reclaimable m t xs j h, ap (among m) ((eq_iff x.file_id j).0 e))
  | inr e ↦ ground (arith, among-reclaimable m t xs j h)
]

select-Has :
    (manifest : List TombstoneRecord) (target : ℕ) (xs : List TombstoneRecord) (r : TombstoneRecord)
    → Has r (select_reclaimable_tombstones xs manifest target)
    → Has r xs × (is_reclaimable manifest target r ≡ true)
unfolding select_reclaimable_tombstones
select-Has m t xs r h = Has-of_filter (is_reclaimable m t) r xs h

reclaimable :
    (manifest : List TombstoneRecord) (target : ℕ) (r : TombstoneRecord)
    → is_reclaimable manifest target r ≡ true
    → (among manifest r.file_id ≡ false)
      × ((revision : ℕ) × (r.deleted_revision ≡ some revision) × (revision ≤ target))
reclaimable m t r h = elim (Option-cases r.deleted_revision) [
  | inl absent ↦ absurd (ground (arith, absent))
  | inr (v, found) ↦ (ground arith, (v, found, ground (arith, found)))
]

module _ (document : FileMapDocument) (manifest : ManifestRecord) (local : List TombstoneRecord)
    (at : ℕ) where
  -- The parts of a convergence that succeeds.
  pub record Parts (result : ManifestConvergenceResult) : Type 0 where
    pub records : List TombstoneRecord
    pub merged_from : merge_manifest_tombstones local manifest.tombstones ≡ ok records
    pub reclaimed :
        result.reclaimed_tombstones
        ≡ select_reclaimable_tombstones records manifest.tombstones manifest.revision
    pub retained :
        result.tombstones
        ≡ sorted seq_leb (filter (λ r. not (among result.reclaimed_tombstones r.file_id)) records)
    pub rebuilt :
        rebuild_filemap_from_manifest document manifest result.tombstones at ≡ ok result.filemap

  pub converge-Parts :
      (result : ManifestConvergenceResult)
      → converge_manifest_state document manifest local at ≡ ok result
      → Parts result
  unfolding converge_manifest_state
  converge-Parts result e =
      let (ms, merged_ok, after) =
        >>=_inv (merge_manifest_tombstones local manifest.tombstones) _ e in
      let (map_, built, end) =
        >>=_inv
          (rebuild_filemap_from_manifest document manifest
            (sorted seq_leb (
              filter
                (λ r. not (
                  among (select_reclaimable_tombstones ms manifest.tombstones manifest.revision)
                    r.file_id))
                ms))
            at)
          _ after in
      subst Parts (ok-injective end) (record {
        records = ms;
        merged_from = merged_ok;
        reclaimed = refl;
        retained = refl;
        rebuilt = built;
      })

  among-retained :
      (result : ManifestConvergenceResult) (parts : Parts result) (j : String)
      → among result.tombstones j ≡ (
          (among local j || among manifest.tombstones j)
          && not (among result.reclaimed_tombstones j))
  among-retained result parts j =
      ap (λ l. among l j) parts.retained
      ∙ among-sorted seq_leb _ j
      ∙ among-filter_id (λ i. not (among result.reclaimed_tombstones i)) parts.records j
      ∙ ap (λ b. b && not (among result.reclaimed_tombstones j))
          (among-merge local manifest.tombstones parts.records j parts.merged_from)

  -- Every deletion that the manifest lists is among the tombstones after a convergence.
  pub converge-keeps_manifest :
      (result : ManifestConvergenceResult) (j : String)
      → converge_manifest_state document manifest local at ≡ ok result
      → among manifest.tombstones j ≡ true
      → among result.tombstones j ≡ true
  converge-keeps_manifest result j e listed =
      let parts = converge-Parts result e in
      ground (
        arith,
        among-retained result parts j,
        ap (λ l. among l j) parts.reclaimed,
        among-reclaimable manifest.tombstones manifest.revision parts.records j listed,
      )

  -- A local deletion is dropped only if the manifest does not list it, and a local record of that
  -- file was committed at a revision which the manifest has reached.
  pub converge-drops_committed :
      (result : ManifestConvergenceResult) (j : String)
      → converge_manifest_state document manifest local at ≡ ok result
      → among local j ≡ true
      → among result.tombstones j ≡ false
      → (among manifest.tombstones j ≡ false)
        × ((r : TombstoneRecord) × Has r local
            × (r.file_id ≡ j)
            × ((revision : ℕ) × (r.deleted_revision ≡ some revision)
                × (revision ≤ manifest.revision)))
  converge-drops_committed result j e there gone =
      let parts = converge-Parts result e in
      let dropped : among result.reclaimed_tombstones j ≡ true =
        ground (arith, among-retained result parts j) in
      let (r, m, same) =
        Has-of_any (λ s. s.file_id == j) _ (ap (λ l. among l j) (sym parts.reclaimed) ∙ dropped) in
      let (held, due) = select-Has manifest.tombstones manifest.revision parts.records r m in
      let (unlisted, reached) = reclaimable manifest.tombstones manifest.revision r due in
      let is_j : r.file_id ≡ j = (eq_iff r.file_id j).0 same in
      (
        ap (among manifest.tombstones) (sym is_j) ∙ unlisted,
        (
          r,
          merge-local local manifest.tombstones parts.records r parts.merged_from unlisted held,
          is_j,
          reached,
        ),
      )
