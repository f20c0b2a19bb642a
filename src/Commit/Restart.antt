-- ===== src/Commit/Restart.antt =====
-- sync_commit.py: the recovery at a restart that asks no server.
use personal_knowledge_base.Base.{String, List, [], ◌∷◌}
use personal_knowledge_base.Base.Exec.{value_error, key_error}
use personal_knowledge_base.Base.State.{Action, ◌>>=◌, pure, lift, require, gets}
use personal_knowledge_base.Base.Exec.{raise}
use personal_knowledge_base.Models.{VaultStateRecord}
use personal_knowledge_base.Store.Rows.{Database, load_vault_state, load_commit_intent_journal}
use personal_knowledge_base.Store.Transactions.{
  recover_prepared_commit_cleanup, recover_orphaned_commit_lock,
}
use personal_knowledge_base.Paths.Staged.{Directories, isolate_staging_orphans}
use personal_knowledge_base.Commit.Confirmation.{
  CommitRecoveryPlan, idle, orphaned_lock, prepared_cleanup, submitted_confirmation,
  plan_commit_recovery,
}

-- The database, and the directories of staging files.
pub record Workspace : Type 0 where
  pub database : Database
  pub directories : Directories

abbrev pub in_database : {A : Type 0} → Action Database A → Action Workspace A
in_database action workspace =
    let done = action workspace.database in (done.0, record workspace { database = done.1 })

unfoldable pub isolate : Action Workspace (List String)
isolate workspace =
    let moved = isolate_staging_orphans workspace.directories in
    pure moved.0 (record workspace { directories = moved.1 })

pub record OrphanedCommitRecoveryResult : Type 0 where
  pub state : VaultStateRecord
  pub moved_staging_paths : List String

pub record LocalCommitRecoveryResult : Type 0 where
  pub plan : CommitRecoveryPlan
  pub state : VaultStateRecord
  pub moved_staging_paths : List String

unfoldable pub recover_orphaned_commit_session :
    String → Action Workspace OrphanedCommitRecoveryResult
unfolding isolate
recover_orphaned_commit_session vault_id = do
  moved_staging_paths ← isolate
  state ← in_database (recover_orphaned_commit_lock vault_id)
  pure (record { state = state; moved_staging_paths = moved_staging_paths })

unfoldable pub recover_by :
    String → CommitRecoveryPlan → VaultStateRecord → Action Workspace LocalCommitRecoveryResult
unfolding isolate recover_orphaned_commit_session
recover_by vault_id plan state = elim plan.mode [
  | idle ↦ pure (record { plan = plan; state = state; moved_staging_paths = [] })
  | orphaned_lock ↦ do
    recovered ← recover_orphaned_commit_session vault_id
    pure (record {
      plan = plan;
      state = recovered.state;
      moved_staging_paths = recovered.moved_staging_paths;
    })
  | prepared_cleanup ↦ do
    moved_staging_paths ← isolate
    recovered_state ← in_database (recover_prepared_commit_cleanup vault_id)
    pure
        (record { plan = plan; state = recovered_state; moved_staging_paths = moved_staging_paths })
  | submitted_confirmation ↦ lift (
      raise (
        value_error "local commit recovery requires remote confirmation for submitted journal state"
          []))
]

unfoldable pub recover_local_commit_state : String → Action Workspace LocalCommitRecoveryResult
unfolding recover_by
recover_local_commit_state vault_id = do
  found ← gets (λ workspace. load_vault_state workspace.database vault_id)
  state ← require found (key_error "vault_state not found" (vault_id ∷ []))
  journal ← gets (λ workspace. load_commit_intent_journal workspace.database vault_id)
  recover_by vault_id (plan_commit_recovery state journal) state
