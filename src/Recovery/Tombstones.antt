-- ===== src/Recovery/Tombstones.antt =====
-- recovery.py: a committed journal marks the deletions that it carried, and no others.
use personal_knowledge_base.Base.{
  ℕ, eq_iff, ◌≡◌, refl, ap, false, ◌&&◌, not, some, List, [], ◌∷◌, map, arith, All, any, filter,
  Bool-cases, inl, inr, All-of_Has, Has-filter, any_of_Has, Has, ◌⊎◌, if◌then◌else◌,
}
use personal_knowledge_base.Base.Exec.{ok, >>=_inv}
use personal_knowledge_base.Models.{
  TombstoneRecord, new_tombstone_record, CommitIntentJournalRecord,
}
use personal_knowledge_base.Recovery.{
  is_pending, select_pending_tombstones_for_commit, has_file_id, committed, commit_loop,
  apply_committed_tombstones,
}

module _ (selected : List TombstoneRecord) (revision : ℕ) where
  -- The record that the loop puts in the place of another.
  unfoldable pub commit_one : TombstoneRecord → TombstoneRecord
  commit_one r = if any (has_file_id r.file_id) selected then committed revision r else r

  commit_step :
      (x y : TombstoneRecord)
      → (if any (has_file_id x.file_id) selected
          then new_tombstone_record (committed revision x)
          else ok x)
        ≡ ok y
      → y ≡ commit_one x
  unfolding commit_one new_tombstone_record
  commit_step x y e = ground arith

  pub commit_loop-eq :
      (xs ys : List TombstoneRecord)
      → commit_loop selected revision xs ≡ ok ys
      → ys ≡ map commit_one xs
  unfolding commit_loop
  commit_loop-eq [] ys e = ground arith
  commit_loop-eq (x ∷ xs) ys e =
      let (x', first, after) =
        >>=_inv
          (if any (has_file_id x.file_id) selected
            then new_tombstone_record (committed revision x)
            else ok x)
          _ e in
      let (rest, more, end) = >>=_inv (commit_loop selected revision xs) _ after in
      cc (commit_step x x' first, commit_loop-eq xs rest more)

map-commit_one :
    (selected : List TombstoneRecord) (v : ℕ) (xs : List TombstoneRecord)
    → map (committed v) (map (commit_one selected v) xs) ≡ map (committed v) xs
unfolding commit_one
map-commit_one selected v [] = refl
map-commit_one selected v (x ∷ xs) = ground (arith, map-commit_one selected v xs)

Has-commit_one :
    (selected : List TombstoneRecord) (v : ℕ) (xs : List TombstoneRecord) (r : TombstoneRecord)
    → Has r (map (commit_one selected v) xs)
    → Has r xs ⊎ (r.deleted_revision ≡ some v)
unfolding commit_one
Has-commit_one selected v (x ∷ xs) r (inl e) =
    elim (Bool-cases (any (has_file_id x.file_id) selected)) [
      | inl q ↦ inr (ap (λ (t : TombstoneRecord). t.deleted_revision) (rw q at e))
      | inr q ↦ inl (inl (rw q at e))
    ]
Has-commit_one selected v (x ∷ xs) r (inr h) = elim (Has-commit_one selected v xs r h) [
  | inl m ↦ inl (inr m)
  | inr q ↦ inr q
]
Has-commit_one selected v [] r h = absurd h

module _ (journal : CommitIntentJournalRecord) where
  select-eq-filter :
      (xs : List TombstoneRecord)
      → select_pending_tombstones_for_commit xs journal ≡ filter (is_pending journal) xs
  unfolding select_pending_tombstones_for_commit
  select-eq-filter [] = refl
  select-eq-filter (x ∷ xs) = ground (arith, select-eq-filter xs)

  -- What is pending among the records has its `file_id` among the selected ones.
  pending_selected :
      (xs : List TombstoneRecord)
      → All
          (λ r.
            (is_pending journal r
              && not
                  (any (has_file_id r.file_id) (select_pending_tombstones_for_commit xs journal)))
            ≡ false)
          xs
  pending_selected xs = rw (select-eq-filter xs) (
      All-of_Has _ xs λ r m. elim (Bool-cases (is_pending journal r)) [
        | inl e ↦
            rw
              (any_of_Has (has_file_id r.file_id) r _ (Has-filter (is_pending journal) r xs m e)
                ((eq_iff r.file_id r.file_id).1 refl))
              (ground arith)
        | inr e ↦ rw e
      ])

  -- A record that the loop has visited is not pending any more.
  none_pending :
      (selected : List TombstoneRecord) (revision : ℕ) (xs : List TombstoneRecord)
      → All (λ r. (is_pending journal r && not (any (has_file_id r.file_id) selected)) ≡ false) xs
      → select_pending_tombstones_for_commit (map (commit_one selected revision) xs) journal ≡ []
  unfolding select_pending_tombstones_for_commit commit_one
  none_pending selected v [] h = refl
  none_pending selected v (x ∷ xs) h = ground (arith, none_pending selected v xs h.1)

-- After a commit is applied nothing that it carried is pending: to apply it again selects nothing.
pub select-apply_committed :
    (tombstones updated : List TombstoneRecord) (journal : CommitIntentJournalRecord) (revision : ℕ)
    → apply_committed_tombstones tombstones journal revision ≡ ok updated
    → select_pending_tombstones_for_commit updated journal ≡ []
unfolding apply_committed_tombstones
select-apply_committed ts us j v e =
    let selected = select_pending_tombstones_for_commit ts j in
    rw (commit_loop-eq selected v ts us e) (none_pending j selected v ts (pending_selected j ts))

commit_loop_nil : (v : ℕ) (xs : List TombstoneRecord) → commit_loop [] v xs ≡ ok xs
unfolding commit_loop
commit_loop_nil v [] = refl
commit_loop_nil v (x ∷ xs) = rw (commit_loop_nil v xs)

-- To apply a commit to the deletions that a first application of it returned, at the same or another
-- revision, returns the same deletions.
pub apply_committed_twice :
    (tombstones updated : List TombstoneRecord) (journal : CommitIntentJournalRecord)
    (revision again : ℕ)
    → apply_committed_tombstones tombstones journal revision ≡ ok updated
    → apply_committed_tombstones updated journal again ≡ ok updated
unfolding apply_committed_tombstones
apply_committed_twice ts us j v w e = rw (select-apply_committed ts us j v e) (commit_loop_nil w us)

-- The records keep their order and all their fields but `deleted_revision`, and that changes only to
-- the committed revision.
apply_committed_frame :
    (tombstones updated : List TombstoneRecord) (journal : CommitIntentJournalRecord) (revision : ℕ)
    → apply_committed_tombstones tombstones journal revision ≡ ok updated
    → (map (committed revision) updated ≡ map (committed revision) tombstones)
      × ((r : TombstoneRecord)
          → Has r updated
          → Has r tombstones ⊎ (r.deleted_revision ≡ some revision))
unfolding apply_committed_tombstones
apply_committed_frame ts us j v e = rw (commit_loop-eq selected v ts us e) (same ts, from ts)
  where
    selected : List TombstoneRecord
    selected = select_pending_tombstones_for_commit ts j

    same :
        (xs : List TombstoneRecord)
        → map (committed v) (map (commit_one selected v) xs) ≡ map (committed v) xs
    same xs = map-commit_one selected v xs

    from :
        (xs : List TombstoneRecord) (r : TombstoneRecord)
        → Has r (map (commit_one selected v) xs)
        → Has r xs ⊎ (r.deleted_revision ≡ some v)
    from xs = Has-commit_one selected v xs
