-- ===== src/Commit/Settled.antt =====
-- sync_commit.py: what the local recovery leaves.
use mathlib.Core.Path.{subst}
use personal_knowledge_base.Base.{
  String, ◌≡◌, refl, ap, true, false, Bool-cases, inl, inr, Option, none, some, [],
}
use personal_knowledge_base.Base.Dict.{get, put}
use personal_knowledge_base.Base.Exec.{Result, ok, ok-injective}
use personal_knowledge_base.Base.State.{continue_inv}
use personal_knowledge_base.Models.{VaultStateRecord, CommitIntentJournalRecord, prepared}
use personal_knowledge_base.Recovery.{
  apply_prepared_commit_recovery, apply_orphaned_commit_lock_recovery,
}
use personal_knowledge_base.Store.Rows.{load_vault_state, load_commit_intent_journal}
use personal_knowledge_base.Store.Transactions.{
  close_commit, recover_prepared_commit_cleanup, recover_orphaned_commit_lock,
}
use personal_knowledge_base.Paths.Staged.{isolate_staging_orphans}
use personal_knowledge_base.Commit.Confirmation.{CommitRecoveryPlan, plan_commit_recovery}
use personal_knowledge_base.Commit.Restart.{
  Workspace, OrphanedCommitRecoveryResult, LocalCommitRecoveryResult, isolate, recover_by,
  recover_orphaned_commit_session, recover_local_commit_state,
}
use personal_knowledge_base.Commit.Idle.{
  IsIdle, idle_plan, locked_plan, prepared_plan, cleanup-IsIdle, lock-IsIdle, in_database_inv,
}

module _ (vault_id : String) (before : Workspace) (state : VaultStateRecord)
    (has_state : get before.database.vault_state vault_id ≡ some state)
    (keyed : state.vault_id ≡ vault_id) where
  session-IsIdle :
      (after : Workspace) (result : OrphanedCommitRecoveryResult)
      → get before.database.commit_intent_journal vault_id ≡ none
      → state.commit_in_progress ≡ true
      → recover_orphaned_commit_session vault_id before ≡ (ok result, after)
      → IsIdle vault_id after.database result.state
  unfolding recover_orphaned_commit_session isolate
  session-IsIdle after result no_journal locked e =
      let moved = isolate_staging_orphans before.directories in
      let (s, did, made) =
        in_database_inv (recover_orphaned_commit_lock vault_id)
          (record before { directories = moved.1 }) after
          (λ s. record { state = s; moved_staging_paths = moved.0 }) result e in
      subst (IsIdle vault_id after.database)
        (ap (λ (r : OrphanedCommitRecoveryResult). r.state) made)
        (lock-IsIdle vault_id before.database after.database state s has_state keyed no_journal
          locked did)

  recover_locked-IsIdle :
      (after : Workspace) (result : LocalCommitRecoveryResult)
      → get before.database.commit_intent_journal vault_id ≡ none
      → state.commit_in_progress ≡ true
      → recover_by vault_id locked_plan state before ≡ (ok result, after)
      → IsIdle vault_id after.database result.state
  unfolding recover_by
  recover_locked-IsIdle after result no_journal locked e =
      let session = recover_orphaned_commit_session vault_id before in
      let (recovered, returned, e₁) = continue_inv session.0 session.1 _ e in
      subst (IsIdle vault_id after.database)
        (ap (λ (r : LocalCommitRecoveryResult). r.state)
          (ok-injective (ap (λ (p : Result LocalCommitRecoveryResult × Workspace). p.0) e₁)))
        (subst (λ (w : Workspace). IsIdle vault_id w.database recovered.state)
          (ap (λ (p : Result LocalCommitRecoveryResult × Workspace). p.1) e₁)
          (session-IsIdle session.1 recovered no_journal locked
            (ap (λ r. (r, session.1)) returned)))

  recover_prepared-IsIdle :
      (after : Workspace) (journal : CommitIntentJournalRecord) (result : LocalCommitRecoveryResult)
      → get before.database.commit_intent_journal vault_id ≡ some journal
      → journal.status ≡ prepared
      → recover_by vault_id prepared_plan state before ≡ (ok result, after)
      → IsIdle vault_id after.database result.state
  unfolding recover_by isolate
  recover_prepared-IsIdle after journal result has_journal is_prepared e =
      let moved = isolate_staging_orphans before.directories in
      let (s, did, made) =
        in_database_inv (recover_prepared_commit_cleanup vault_id)
          (record before { directories = moved.1 }) after
          (λ s. record { plan = prepared_plan; state = s; moved_staging_paths = moved.0 }) result
          e in
      subst (IsIdle vault_id after.database) (ap (λ (r : LocalCommitRecoveryResult). r.state) made)
        (cleanup-IsIdle vault_id before.database after.database state s journal has_state keyed
          has_journal is_prepared did)

  returns-locked :
      (s : VaultStateRecord)
      → get before.database.commit_intent_journal vault_id ≡ none
      → state.commit_in_progress ≡ true
      → apply_prepared_commit_recovery state ≡ ok s
      → (result : LocalCommitRecoveryResult) × (after : Workspace) × (recover_by vault_id
            locked_plan state before
          ≡ (ok result, after))
  unfolding recover_by recover_orphaned_commit_session recover_orphaned_commit_lock
      apply_orphaned_commit_lock_recovery isolate
  returns-locked s no_journal locked unlocks =
      let moved = isolate_staging_orphans before.directories in
      let written = put before.database.vault_state s.vault_id s in
      (
        record { plan = locked_plan; state = s; moved_staging_paths = moved.0 },
        record {
          database = record before.database { vault_state = written };
          directories = moved.1;
        },
        rw (has_state, no_journal, locked, unlocks) refl,
      )

  returns-prepared :
      (s : VaultStateRecord) (journal : CommitIntentJournalRecord)
      → get before.database.commit_intent_journal vault_id ≡ some journal
      → journal.status ≡ prepared
      → apply_prepared_commit_recovery state ≡ ok s
      → (result : LocalCommitRecoveryResult) × (after : Workspace) × (recover_by vault_id
            prepared_plan state before
          ≡ (ok result, after))
  unfolding recover_by recover_prepared_commit_cleanup isolate
  returns-prepared s journal has_journal is_prepared unlocks =
      let moved = isolate_staging_orphans before.directories in
      (
        record { plan = prepared_plan; state = s; moved_staging_paths = moved.0 },
        record { database = close_commit vault_id s before.database; directories = moved.1 },
        rw (has_state, has_journal, is_prepared, unlocks) refl,
      )

plan-locked :
    (state : VaultStateRecord)
    → state.commit_in_progress ≡ true
    → plan_commit_recovery state none ≡ locked_plan
unfolding plan_commit_recovery
plan-locked state e = rw e refl

plan-idle :
    (state : VaultStateRecord)
    → state.commit_in_progress ≡ false
    → plan_commit_recovery state none ≡ idle_plan
unfolding plan_commit_recovery
plan-idle state e = rw e refl

plan-prepared :
    (state : VaultStateRecord) (journal : CommitIntentJournalRecord)
    → journal.status ≡ prepared
    → plan_commit_recovery state (some journal) ≡ prepared_plan
unfolding plan_commit_recovery
plan-prepared state journal e = rw e refl

idle-returns :
    (vault_id : String) (before : Workspace) (state : VaultStateRecord)
    → recover_by vault_id idle_plan state before
      ≡ (ok (record { plan = idle_plan; state = state; moved_staging_paths = [] }), before)
unfolding recover_by
idle-returns vault_id before state = refl

abbrev Settles : String → CommitRecoveryPlan → VaultStateRecord → Workspace → Type 0
Settles vault_id plan state before =
    (result : LocalCommitRecoveryResult) × (after : Workspace) × (recover_by vault_id plan state
        before
      ≡ (ok result, after))
    × IsIdle vault_id after.database result.state

recover_by-Settles :
    (vault_id : String) (before : Workspace) (state s : VaultStateRecord)
    (journal : Option CommitIntentJournalRecord)
    → get before.database.vault_state vault_id ≡ some state
    → state.vault_id ≡ vault_id
    → apply_prepared_commit_recovery state ≡ ok s
    → get before.database.commit_intent_journal vault_id ≡ journal
    → ((j : CommitIntentJournalRecord) → journal ≡ some j → j.status ≡ prepared)
    → Settles vault_id (plan_commit_recovery state journal) state before
recover_by-Settles vault_id before state s none has_state keyed unlocks has_journal h =
    elim (Bool-cases state.commit_in_progress) [
      | inl locked ↦
          let (result, after, e) =
            returns-locked vault_id before state has_state keyed s has_journal locked unlocks in
          rw (plan-locked state locked) (
            result,
            after,
            e,
            recover_locked-IsIdle vault_id before state has_state keyed after result has_journal
                locked e,
          )
      | inr free ↦ rw (plan-idle state free) (
        record { plan = idle_plan; state = state; moved_staging_paths = [] },
        before,
        idle-returns vault_id before state,
        (has_state, has_journal, free),
      )
    ]
recover_by-Settles vault_id before state s (some journal) has_state keyed unlocks has_journal h =
    let is_prepared = h journal refl in
    let (result, after, e) =
      returns-prepared vault_id before state has_state keyed s journal has_journal is_prepared
        unlocks in
    rw (plan-prepared state journal is_prepared) (
      result,
      after,
      e,
      recover_prepared-IsIdle vault_id before state has_state keyed after journal result has_journal
          is_prepared e,
    )

recover-idle :
    (vault_id : String) (workspace : Workspace) (state : VaultStateRecord)
    → IsIdle vault_id workspace.database state
    → recover_local_commit_state vault_id workspace
      ≡ (ok (record { plan = idle_plan; state = state; moved_staging_paths = [] }), workspace)
unfolding recover_local_commit_state load_vault_state load_commit_intent_journal recover_by
    plan_commit_recovery
recover-idle vault_id workspace state (has_state, no_journal, free) =
    rw (has_state, no_journal, free) refl

-- At a restart, if the vault's state is stored under its own id and passes the checks of a state when its
-- lock is released, and its journal, if there is one, is only prepared, then the local recovery returns.
-- The state that it returns is stored then, unlocked, and no journal is; and a second recovery is idle:
-- it returns the same state, moves no file and changes nothing.
pub recover_local-settles :
    (vault_id : String) (before : Workspace) (state unlocked : VaultStateRecord)
    → load_vault_state before.database vault_id ≡ some state
    → state.vault_id ≡ vault_id
    → apply_prepared_commit_recovery state ≡ ok unlocked
    → ((j : CommitIntentJournalRecord)
        → load_commit_intent_journal before.database vault_id ≡ some j
        → j.status ≡ prepared)
    → (result : LocalCommitRecoveryResult) × (after : Workspace) × (recover_local_commit_state
          vault_id before
        ≡ (ok result, after))
      × (load_vault_state after.database vault_id ≡ some result.state)
      × (result.state.commit_in_progress ≡ false)
      × (load_commit_intent_journal after.database vault_id ≡ none)
      × (recover_local_commit_state vault_id after ≡ (
        ok (record { plan = idle_plan; state = result.state; moved_staging_paths = [] }),
        after,
      ))
unfolding recover_local_commit_state load_vault_state load_commit_intent_journal
recover_local-settles vault_id before state unlocked has_state keyed unlocks only_prepared =
    let (result, after, e, (stored, no_journal, free)) =
      recover_by-Settles vault_id before state unlocked
        (load_commit_intent_journal before.database vault_id) has_state keyed unlocks refl
        only_prepared in
    (
      result,
      after,
      rw has_state e,
      stored,
      free,
      no_journal,
      recover-idle vault_id after result.state (stored, no_journal, free),
    )
