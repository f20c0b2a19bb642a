-- ===== src/Commit/Abandon.antt =====
-- sync_commit.py: a commit that is prepared and then abandoned.
use personal_knowledge_base.Base.{
  ℕ, String, ◌≡◌, refl, ap, sym, ◌∙◌, true, false, none, some, [], arith, is_some, ◌⊎◌, inl, inr,
}
use personal_knowledge_base.Base.Dict.{get-put_same, get-delete_same, get, put}
use personal_knowledge_base.Base.Exec.{
  Result, ok, raise, raise_if, raise_if-eq-ok, ok-injective, value_error,
}
use personal_knowledge_base.Base.State.{continue_inv}
use personal_knowledge_base.Models.{
  VaultStateRecord, new_vault_state_record, CommitIntentJournalRecord,
  new_commit_intent_journal_record, prepared, submitted,
}
use personal_knowledge_base.Recovery.{
  should_block_new_commit, apply_prepared_commit_recovery, apply_submitted_commit_miss_recovery,
  normalize_commit_journal_for_recovery,
}
use personal_knowledge_base.Store.Rows.{
  Database, load_vault_state, load_commit_intent_journal, upsert_commit_intent_journal,
  upsert_vault_state,
}
use personal_knowledge_base.Store.Transactions.{
  close_commit, close_normalized, recover_prepared_commit_cleanup, recover_submitted_commit_miss,
}
use personal_knowledge_base.Commit.Prepare.{
  apply_commit_submitted_state, CommitPreparationBundle, intent_of, prepare_commit_intent,
  cleanup_failed_commit_submission,
}

abbrev pub lock : VaultStateRecord → VaultStateRecord
lock state = record state { commit_in_progress = true }

abbrev pub prepared_database : VaultStateRecord → CommitIntentJournalRecord → Database → Database
prepared_database state journal db = record db {
  vault_state = put db.vault_state state.vault_id (lock state);
  commit_intent_journal = put db.commit_intent_journal state.vault_id journal;
}

submitted-eq :
    (s t : VaultStateRecord)
    → apply_commit_submitted_state s ≡ ok t
    → (t ≡ lock s)
      × (new_vault_state_record (record s { commit_in_progress = false })
          ≡ ok (record s { commit_in_progress = false }))
unfolding apply_commit_submitted_state new_vault_state_record
submitted-eq s t e = ground arith

pub journal-eq :
    (j k : CommitIntentJournalRecord) → new_commit_intent_journal_record j ≡ ok k → k ≡ j
unfolding new_commit_intent_journal_record
journal-eq j k e = ground arith

unblocked :
    (s : VaultStateRecord) (db : Database)
    → should_block_new_commit s (is_some (load_commit_intent_journal db s.vault_id)) ≡ false
    → s.commit_in_progress ≡ false
unfolding should_block_new_commit
unblocked s db e = ground arith

cleanup_prepared :
    (vault_id : String) (now : ℕ) (db : Database) (locked s : VaultStateRecord)
    (journal : CommitIntentJournalRecord)
    → get db.vault_state vault_id ≡ some locked
    → get db.commit_intent_journal vault_id ≡ some journal
    → journal.status ≡ prepared
    → apply_prepared_commit_recovery locked ≡ ok s
    → cleanup_failed_commit_submission vault_id now db ≡ (ok s, close_commit vault_id s db)
unfolding cleanup_failed_commit_submission recover_prepared_commit_cleanup
    load_commit_intent_journal
cleanup_prepared vault_id now db locked s journal has_state has_journal is_prepared unlocks =
    rw has_journal
      (rw is_prepared (rw has_state (rw has_journal (rw is_prepared (rw unlocks refl)))))

cleanup_submitted :
    (vault_id : String) (now : ℕ) (db : Database) (locked s : VaultStateRecord)
    (journal : CommitIntentJournalRecord)
    → get db.vault_state vault_id ≡ some locked
    → get db.commit_intent_journal vault_id ≡ some journal
    → journal.status ≡ submitted
    → apply_prepared_commit_recovery locked ≡ ok s
    → cleanup_failed_commit_submission vault_id now db
      ≡ (ok s, close_normalized vault_id journal s db)
unfolding cleanup_failed_commit_submission recover_submitted_commit_miss load_commit_intent_journal
    normalize_commit_journal_for_recovery apply_submitted_commit_miss_recovery
cleanup_submitted vault_id now db locked s journal has_state has_journal is_submitted unlocks =
    rw has_journal
      (rw is_submitted (rw has_state (rw has_journal (rw is_submitted (rw unlocks refl)))))

module _ (state : VaultStateRecord) (commit_intent_id device : String) (created_at : ℕ)
    (db after : Database) (bundle : CommitPreparationBundle)
    (returned : prepare_commit_intent state commit_intent_id device created_at db
      ≡ (ok bundle, after)) where
  abbrev pub journal : CommitIntentJournalRecord
  journal = intent_of state commit_intent_id device created_at

  is_prepared_journal : journal.status ≡ prepared
  is_prepared_journal = refl

  both_written : CommitIntentJournalRecord → VaultStateRecord → Database
  both_written j s = record db {
    vault_state = put db.vault_state s.vault_id s;
    commit_intent_journal = put db.commit_intent_journal j.vault_id j;
  }

  pub prepare-eq :
      (state.commit_in_progress ≡ false)
      × (apply_prepared_commit_recovery (lock state)
          ≡ ok (record state { commit_in_progress = false }))
      × (after ≡ prepared_database state journal db)
  unfolding prepare_commit_intent both_written upsert_commit_intent_journal upsert_vault_state
      apply_prepared_commit_recovery
  prepare-eq =
      let active = is_some (load_commit_intent_journal db state.vault_id) in
      let (_, free, e₁) =
        continue_inv
          (raise_if (should_block_new_commit state active)
            (value_error "vault_state is not eligible to start a new commit" []))
          db _ returned in
      let (written, makes, e₂) =
        continue_inv
          (new_commit_intent_journal_record (intent_of state commit_intent_id device created_at)) db
          _ e₁ in
      let (updated, locks, e₃) = continue_inv (apply_commit_submitted_state state) db _ e₂ in
      let (is_lock, unlocks) = submitted-eq state updated locks in
      (
        unblocked state db (raise_if-eq-ok (should_block_new_commit state active) _ free),
        unlocks,
        sym (ap (λ (p : Result CommitPreparationBundle × Database). p.1) e₃)
            ∙ ap (λ j. both_written j updated)
                (journal-eq (intent_of state commit_intent_id device created_at) written makes)
            ∙ ap (both_written (intent_of state commit_intent_id device created_at)) is_lock,
      )

  pub prepare-journal : bundle.journal ≡ journal
  unfolding prepare_commit_intent upsert_commit_intent_journal upsert_vault_state
  prepare-journal =
      let active = is_some (load_commit_intent_journal db state.vault_id) in
      let (_, _, e₁) =
        continue_inv
          (raise_if (should_block_new_commit state active)
            (value_error "vault_state is not eligible to start a new commit" []))
          db _ returned in
      let (written, makes, e₂) =
        continue_inv
          (new_commit_intent_journal_record (intent_of state commit_intent_id device created_at)) db
          _ e₁ in
      let (updated, _, e₃) = continue_inv (apply_commit_submitted_state state) db _ e₂ in
      ap (λ (b : CommitPreparationBundle). b.journal)
        (sym (ok-injective (ap (λ (p : Result CommitPreparationBundle × Database). p.0) e₃)))
      ∙ journal-eq (intent_of state commit_intent_id device created_at) written makes

  -- A commit that was prepared and then fails, while its state is as it was written and its journal is
  -- prepared or already submitted: the cleanup leaves the state as it was before the preparation, in the
  -- result and in the table, and no commit journal.
  pub prepare-cleanup :
      (now : ℕ) (failed : Database) (last : CommitIntentJournalRecord)
      → get failed.vault_state state.vault_id ≡ get after.vault_state state.vault_id
      → get failed.commit_intent_journal state.vault_id ≡ some last
      → (last.status ≡ prepared) ⊎ (last.status ≡ submitted)
      → (final : Database) × (cleanup_failed_commit_submission state.vault_id now failed
          ≡ (ok state, final))
        × (load_vault_state final state.vault_id ≡ some state)
        × (load_commit_intent_journal final state.vault_id ≡ none)
  unfolding load_vault_state load_commit_intent_journal
  prepare-cleanup now failed last same has_journal status =
      let (free, unlocks, is) = prepare-eq in
      let unlocked : record state { commit_in_progress = false } ≡ state =
        ap (λ b. record state { commit_in_progress = b }) (sym free) in
      let has_state : get failed.vault_state state.vault_id ≡ some (lock state) =
        same
        ∙ ap (λ (d : Database). get d.vault_state state.vault_id) is
        ∙ get-put_same db.vault_state state.vault_id (lock state) in
      let restores = unlocks ∙ ap ok unlocked in
      elim status [
        | inl is_prepared ↦ (
          close_commit state.vault_id state failed,
          cleanup_prepared state.vault_id now failed (lock state) state last has_state has_journal
              is_prepared restores,
          get-put_same failed.vault_state state.vault_id state,
          get-delete_same failed.commit_intent_journal state.vault_id,
        )
        | inr is_submitted ↦ (
          close_normalized state.vault_id last state failed,
          cleanup_submitted state.vault_id now failed (lock state) state last has_state has_journal
              is_submitted restores,
          get-put_same failed.vault_state state.vault_id state,
          get-delete_same (put failed.commit_intent_journal state.vault_id last) state.vault_id,
        )
      ]

  -- While a commit is prepared no other can be: a second attempt raises, with any state of the vault, and
  -- writes nothing.
  pub prepare_again :
      (other : VaultStateRecord) (other_id other_device : String) (now : ℕ)
      → other.vault_id ≡ state.vault_id
      → prepare_commit_intent other other_id other_device now after
        ≡ (raise (value_error "vault_state is not eligible to start a new commit" []), after)
  unfolding prepare_commit_intent load_commit_intent_journal should_block_new_commit
  prepare_again other other_id other_device now same =
      let (free, unlocks, is) = prepare-eq in
      let has_journal : get after.commit_intent_journal other.vault_id ≡ some journal =
        ap (get after.commit_intent_journal) same
        ∙ ap (λ (d : Database). get d.commit_intent_journal state.vault_id) is
        ∙ get-put_same db.commit_intent_journal state.vault_id journal in
      rw has_journal refl
