-- ===== src/Commit/Idle.antt =====
-- sqlite_store.py and sync_commit.py: a vault without lock and journal, and the local recoveries.
use mathlib.Core.Path.{subst}
use personal_knowledge_base.Base.{String, ◌≡◌, ap, ◌∙◌, true, false, none, some, arith}
use personal_knowledge_base.Base.Dict.{get-put_same, get-delete_same, get, put}
use personal_knowledge_base.Base.Exec.{Result, ok, ok-injective}
use personal_knowledge_base.Base.State.{Action, ◌>>=◌, pure, continue_inv}
use personal_knowledge_base.Models.{
  VaultStateRecord, new_vault_state_record, CommitIntentJournalRecord, prepared,
}
use personal_knowledge_base.Recovery.{
  apply_prepared_commit_recovery, apply_orphaned_commit_lock_recovery,
}
use personal_knowledge_base.Store.Rows.{Database}
use personal_knowledge_base.Store.Transactions.{
  close_commit, recover_prepared_commit_cleanup, recover_orphaned_commit_lock,
}
use personal_knowledge_base.Commit.Confirmation.{
  CommitRecoveryPlan, idle, orphaned_lock, prepared_cleanup,
}
use personal_knowledge_base.Commit.Restart.{Workspace, in_database}

-- The table has this state for the vault, unlocked, and no journal.
abbrev pub IsIdle : String → Database → VaultStateRecord → Type 0
IsIdle vault_id db state =
    (get db.vault_state vault_id ≡ some state)
    × (get db.commit_intent_journal vault_id ≡ none)
    × (state.commit_in_progress ≡ false)

abbrev pub idle_plan : CommitRecoveryPlan
idle_plan = record {
  mode = idle;
  should_cleanup_staging = false;
  requires_remote_confirmation = false;
}

abbrev pub locked_plan : CommitRecoveryPlan
locked_plan = record {
  mode = orphaned_lock;
  should_cleanup_staging = true;
  requires_remote_confirmation = false;
}

abbrev pub prepared_plan : CommitRecoveryPlan
prepared_plan = record {
  mode = prepared_cleanup;
  should_cleanup_staging = true;
  requires_remote_confirmation = false;
}

unlock-eq :
    (s t : VaultStateRecord)
    → apply_prepared_commit_recovery s ≡ ok t
    → (t.vault_id ≡ s.vault_id) × (t.commit_in_progress ≡ false)
unfolding apply_prepared_commit_recovery new_vault_state_record
unlock-eq s t e = ground arith

-- What is returned and what is stored is what was computed.
IsIdle-returned :
    (vault_id : String) (db after : Database) (recovered s : VaultStateRecord)
    → IsIdle vault_id db recovered
    → ◌≡◌ {A = Result VaultStateRecord × Database} (ok recovered, db) (ok s, after)
    → IsIdle vault_id after s
IsIdle-returned vault_id db after recovered s h e =
    subst (λ (d : Database). IsIdle vault_id d s)
      (ap (λ (p : Result VaultStateRecord × Database). p.1) e)
      (subst (IsIdle vault_id db)
        (ok-injective (ap (λ (p : Result VaultStateRecord × Database). p.0) e)) h)

put-IsIdle :
    (vault_id : String) (db : Database) (state recovered : VaultStateRecord)
    → state.vault_id ≡ vault_id
    → apply_prepared_commit_recovery state ≡ ok recovered
    → (get (put db.vault_state recovered.vault_id recovered) vault_id ≡ some recovered)
      × (recovered.commit_in_progress ≡ false)
put-IsIdle vault_id db state recovered keyed unlocks =
    let (same, unlocked) = unlock-eq state recovered unlocks in
    (
      ap (λ k. get (put db.vault_state k recovered) vault_id) (same ∙ keyed)
          ∙ get-put_same db.vault_state vault_id recovered,
      unlocked,
    )

pub cleanup-IsIdle :
    (vault_id : String) (db after : Database) (state s : VaultStateRecord)
    (journal : CommitIntentJournalRecord)
    → get db.vault_state vault_id ≡ some state
    → state.vault_id ≡ vault_id
    → get db.commit_intent_journal vault_id ≡ some journal
    → journal.status ≡ prepared
    → recover_prepared_commit_cleanup vault_id db ≡ (ok s, after)
    → IsIdle vault_id after s
unfolding recover_prepared_commit_cleanup
cleanup-IsIdle vault_id db after state s journal has_state keyed has_journal is_prepared e =
    let e₁ = rw (has_state, has_journal, is_prepared) at e in
    let (recovered, unlocks, e₂) = continue_inv (apply_prepared_commit_recovery state) db _ e₁ in
    let (stored, unlocked) = put-IsIdle vault_id db state recovered keyed unlocks in
    IsIdle-returned vault_id (close_commit vault_id recovered db) after recovered s
      (stored, get-delete_same db.commit_intent_journal vault_id, unlocked) e₂

pub lock-IsIdle :
    (vault_id : String) (db after : Database) (state s : VaultStateRecord)
    → get db.vault_state vault_id ≡ some state
    → state.vault_id ≡ vault_id
    → get db.commit_intent_journal vault_id ≡ none
    → state.commit_in_progress ≡ true
    → recover_orphaned_commit_lock vault_id db ≡ (ok s, after)
    → IsIdle vault_id after s
unfolding recover_orphaned_commit_lock apply_orphaned_commit_lock_recovery
lock-IsIdle vault_id db after state s has_state keyed no_journal locked e =
    let e₁ = rw (has_state, no_journal, locked) at e in
    let (recovered, unlocks, e₂) = continue_inv (apply_prepared_commit_recovery state) db _ e₁ in
    let (stored, unlocked) = put-IsIdle vault_id db state recovered keyed unlocks in
    IsIdle-returned vault_id
      (record db { vault_state = put db.vault_state recovered.vault_id recovered }) after recovered
      s (stored, no_journal, unlocked) e₂

-- A recovery that ends with a step on the database returned what that step did.
pub in_database_inv :
    {R : Type 0} (action : Action Database VaultStateRecord) (w after : Workspace)
    (make : VaultStateRecord → R) (result : R)
    → (in_database action >>= λ s. pure (make s)) w ≡ (ok result, after)
    → (s : VaultStateRecord) × (action w.database ≡ (ok s, after.database)) × (make s ≡ result)
in_database_inv {R} action w after make result e =
    let done = action w.database in
    let (s, returned, e₁) = continue_inv done.0 (record w { database = done.1 }) _ e in
    (
      s,
      ap (λ r. (r, done.1)) returned ∙ ap (λ (p : Result R × Workspace). (ok s, p.1.database)) e₁,
      ok-injective (ap (λ (p : Result R × Workspace). p.0) e₁),
    )
