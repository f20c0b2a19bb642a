-- ===== src/Recovery/Coherence.antt =====
-- recovery.py: what every sequence of transitions keeps, and in which direction it moves.
use personal_knowledge_base.Base.{
  ℕ, String, ◌≡◌, ◌≤◌, Bool, Option, none, some, is_some, arith, ◌||◌,
}
use personal_knowledge_base.Base.Exec.{ok}
use personal_knowledge_base.Models.{
  VaultStateRecord, new_vault_state_record, is_valid, SyncApplyJournalRecord,
}
use personal_knowledge_base.Recovery.{
  apply_manifest_summary_stale, apply_manifest_reconciled_state, apply_sync_finalizing_recovery,
  apply_prepared_commit_recovery, apply_orphaned_commit_lock_recovery, apply_commit_success_state,
  apply_submitted_commit_match_recovery, apply_submitted_commit_miss_recovery,
  should_block_new_commit, requires_full_pull,
}

-- The revisions are ordered, and a summary is there exactly when it is called valid.
pub record IsCoherent (s : VaultStateRecord) : Type 0 where
  pub acked : s.acked_revision ≤ s.last_applied_revision
  pub applied : s.last_applied_revision ≤ s.remote_head_revision
  pub summary : is_valid s.last_manifest_summary_status ≡ is_some s.last_manifest_summary

-- No revision falls, and the delete sequence stays.
pub record IsForward (s t : VaultStateRecord) : Type 0 where
  pub acked : s.acked_revision ≤ t.acked_revision
  pub applied : s.last_applied_revision ≤ t.last_applied_revision
  pub head : s.remote_head_revision ≤ t.remote_head_revision
  pub deletions : s.local_delete_sequence ≡ t.local_delete_sequence
  pub vault : s.vault_id ≡ t.vault_id

-- One transition that succeeds. A matched revision is at most the observed head.
pub data Transition (s t : VaultStateRecord) : Type 0 where
  went_stale : apply_manifest_summary_stale s ≡ ok t → Transition s t
  reconciled :
      (target : ℕ) (summary : String)
      → apply_manifest_reconciled_state s target summary ≡ ok t
      → Transition s t
  finalized :
      (journal : SyncApplyJournalRecord)
      → apply_sync_finalizing_recovery s journal ≡ ok t
      → Transition s t
  prepared_dropped : apply_prepared_commit_recovery s ≡ ok t → Transition s t
  lock_dropped : apply_orphaned_commit_lock_recovery s ≡ ok t → Transition s t
  committed_at :
      (revision : ℕ) (summary : String)
      → apply_commit_success_state s revision summary ≡ ok t
      → Transition s t
  matched_at :
      (revision head : ℕ) (summary : Option String)
      → revision ≤ head
      → apply_submitted_commit_match_recovery s revision head summary ≡ ok t
      → Transition s t
  missed : apply_submitted_commit_miss_recovery s ≡ ok t → Transition s t

pub data Transitions (s : VaultStateRecord) : VaultStateRecord → Type 0 where
  here : Transitions s s
  next : {t u : VaultStateRecord} → Transitions s t → Transition t u → Transitions s u

module _ {s t : VaultStateRecord} where
  pub Transition-IsCoherent : IsCoherent s → Transition s t → IsCoherent t
  unfolding apply_manifest_summary_stale apply_sync_finalizing_recovery
      apply_prepared_commit_recovery apply_orphaned_commit_lock_recovery apply_commit_success_state
      apply_submitted_commit_match_recovery apply_submitted_commit_miss_recovery
      new_vault_state_record
  Transition-IsCoherent h (went_stale e) = ground arith
  Transition-IsCoherent h (reconciled n m e) = ground arith
  Transition-IsCoherent h (finalized j e) = ground arith
  Transition-IsCoherent h (prepared_dropped e) = ground arith
  Transition-IsCoherent h (lock_dropped e) = ground arith
  Transition-IsCoherent h (committed_at r m e) = ground arith
  Transition-IsCoherent h (matched_at r o none le e) = ground arith
  Transition-IsCoherent h (matched_at r o (some m) le e) = ground arith
  Transition-IsCoherent h (missed e) = ground arith

  pub Transition-IsForward : Transition s t → IsForward s t
  unfolding apply_manifest_summary_stale apply_sync_finalizing_recovery
      apply_prepared_commit_recovery apply_orphaned_commit_lock_recovery apply_commit_success_state
      apply_submitted_commit_match_recovery apply_submitted_commit_miss_recovery
      new_vault_state_record
  Transition-IsForward (went_stale e) = ground arith
  Transition-IsForward (reconciled n m e) = ground arith
  Transition-IsForward (finalized j e) = ground arith
  Transition-IsForward (prepared_dropped e) = ground arith
  Transition-IsForward (lock_dropped e) = ground arith
  Transition-IsForward (committed_at r m e) = ground arith
  Transition-IsForward (matched_at r o none le e) = ground arith
  Transition-IsForward (matched_at r o (some m) le e) = ground arith
  Transition-IsForward (missed e) = ground arith

-- Whatever transitions are made, where a commit that is found to be at a revision is not past the head that
-- was observed with it, a coherent state stays coherent and moves only forward.
pub Transitions-IsCoherent :
    {s t : VaultStateRecord} → IsCoherent s → Transitions s t → IsCoherent t × IsForward s t
Transitions-IsCoherent h here = (h, ground arith)
Transitions-IsCoherent h (next r st) =
    let (c, f) = Transitions-IsCoherent h r in
    let g = Transition-IsForward st in (Transition-IsCoherent c st, ground arith)

-- A new commit is blocked exactly by an active journal, a commit in progress,
-- unresolved conflicts, or the need for a full pull.
pub should_block-iff_full_pull :
    (s : VaultStateRecord) (active : Bool)
    → should_block_new_commit s active
      ≡ (active || (s.commit_in_progress || (s.has_unresolved_conflicts || requires_full_pull s)))
unfolding should_block_new_commit requires_full_pull
should_block-iff_full_pull s active = ground arith
