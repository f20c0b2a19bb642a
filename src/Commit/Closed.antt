-- ===== src/Commit/Closed.antt =====
-- sync_apply.py: a confirmation that returns has closed the commit, found or not.
use mathlib.Core.Path.{subst}
use personal_knowledge_base.Base.{
  ℕ, String, ◌≡◌, refl, ap, sym, ◌∙◌, false, Option, none, some, List, [], ◌∷◌, arith,
}
use personal_knowledge_base.Base.Dict.{get-delete_same, get, put}
use personal_knowledge_base.Base.Exec.{Result, ok, require, ok-injective, key_error}
use personal_knowledge_base.Base.State.{continue_inv}
use personal_knowledge_base.Models.{
  TombstoneRecord, ManifestRecord, VaultStateRecord, new_vault_state_record,
}
use personal_knowledge_base.Manifest.{CanonicalPayload}
use personal_knowledge_base.Recovery.{
  apply_committed_tombstones, apply_prepared_commit_recovery, apply_submitted_commit_match_recovery,
  apply_submitted_commit_miss_recovery, normalize_commit_journal_for_recovery,
}
use personal_knowledge_base.Store.Rows.{Database, load_commit_intent_journal}
use personal_knowledge_base.Store.Transactions.{
  both_rows, close_normalized, recover_submitted_commit_match, recover_submitted_commit_miss,
}
use personal_knowledge_base.Pull.Apply.{Local}
use personal_knowledge_base.Commit.Confirmation.{
  plan_submitted_confirmation, resolve_submitted_confirmation, validate_scan_revision_metadata,
  validate_submitted_confirmation_manifest, idle, plan_commit_recovery,
}
use personal_knowledge_base.Commit.Recover.{
  SubmittedRecoveryResult, SubmittedConfirmationExecutionResult, SubmittedConfirmationRemoteState,
  matched_at, recover_submitted_commit_from_manifest, recover_submitted_commit_flow,
  recover_resolved, execute_submitted_commit_confirmation_remote_state,
}

-- The vault's commit is closed: its journal has no row, and its state no lock.
abbrev pub IsClosed : String → Database → VaultStateRecord → Type 0
IsClosed vault_id db state =
    (get db.commit_intent_journal vault_id ≡ none) × (state.commit_in_progress ≡ false)

unlocked_by_match :
    (s t : VaultStateRecord) (revision head : ℕ) (summary : Option String)
    → apply_submitted_commit_match_recovery s revision head summary ≡ ok t
    → t.commit_in_progress ≡ false
unfolding apply_submitted_commit_match_recovery new_vault_state_record
unlocked_by_match s t revision head summary e = ground arith

unlocked_by_miss :
    (s t : VaultStateRecord)
    → apply_submitted_commit_miss_recovery s ≡ ok t
    → t.commit_in_progress ≡ false
unfolding apply_submitted_commit_miss_recovery apply_prepared_commit_recovery new_vault_state_record
unlocked_by_miss s t e = ground arith

close_normalized-IsClosed :
    (vault_id : String) (normalized : personal_knowledge_base.Models.CommitIntentJournalRecord)
    (recovered s : VaultStateRecord) (db after : Database)
    → recovered.commit_in_progress ≡ false
    → ◌≡◌ {A = Result VaultStateRecord × Database}
        (ok recovered, close_normalized vault_id normalized recovered db)
        (ok s, after)
    → IsClosed vault_id after s
close_normalized-IsClosed vault_id normalized recovered s db after h e = (
  ap (λ (p : Result VaultStateRecord × Database). get p.1.commit_intent_journal vault_id) (sym e)
      ∙ get-delete_same (put db.commit_intent_journal vault_id normalized) vault_id,
  subst (λ (r : VaultStateRecord). r.commit_in_progress ≡ false)
      (ok-injective (ap (λ (p : Result VaultStateRecord × Database). p.0) e)) h,
)

miss-IsClosed :
    (vault_id : String) (now : ℕ) (db after : Database) (s : VaultStateRecord)
    → recover_submitted_commit_miss vault_id now db ≡ (ok s, after)
    → IsClosed vault_id after s
unfolding recover_submitted_commit_miss
miss-IsClosed vault_id now db after s e =
    let rows = both_rows vault_id db in
    let (found, _, e₁) = continue_inv rows.0 rows.1 _ e in
    let (normalized, _, e₂) =
      continue_inv (normalize_commit_journal_for_recovery found.1 now) rows.1 _ e₁ in
    let (recovered, unlocks, e₃) =
      continue_inv (apply_submitted_commit_miss_recovery found.0) rows.1 _ e₂ in
    close_normalized-IsClosed vault_id normalized recovered s rows.1 after
      (unlocked_by_miss found.0 recovered unlocks) e₃

match-IsClosed :
    (vault_id : String) (revision head : ℕ) (summary : Option String) (now : ℕ)
    (db after : Database) (s : VaultStateRecord)
    → recover_submitted_commit_match vault_id revision head summary now db ≡ (ok s, after)
    → IsClosed vault_id after s
unfolding recover_submitted_commit_match
match-IsClosed vault_id revision head summary now db after s e =
    let rows = both_rows vault_id db in
    let (found, _, e₁) = continue_inv rows.0 rows.1 _ e in
    let (normalized, _, e₂) =
      continue_inv (normalize_commit_journal_for_recovery found.1 now) rows.1 _ e₁ in
    let (recovered, unlocks, e₃) =
      continue_inv (apply_submitted_commit_match_recovery found.0 revision head summary) rows.1 _
        e₂ in
    close_normalized-IsClosed vault_id normalized recovered s rows.1 after
      (unlocked_by_match found.0 recovered revision head summary unlocks) e₃

module _ (nfc : String → String) (digest : CanonicalPayload → String) (vault_id : String)
    (tombstones : List TombstoneRecord) (now : ℕ) where
  flow-IsClosed :
      (revision head : ℕ) (manifest : Option ManifestRecord) (before after : Local)
      (result : SubmittedRecoveryResult)
      → recover_submitted_commit_flow nfc digest vault_id tombstones revision head now manifest
          before
        ≡ (ok result, after)
      → IsClosed vault_id after.database result.state
  unfolding recover_submitted_commit_flow recover_submitted_commit_from_manifest
  flow-IsClosed revision head manifest before after result e =
      let (journal, _, e₁) =
        continue_inv
          (require (load_commit_intent_journal before.database vault_id)
            (key_error "commit_intent_journal not found" (vault_id ∷ [])))
          before _ e in
      let (updated, _, e₂) =
        continue_inv (apply_committed_tombstones tombstones journal revision) before _ e₁ in
      let recovered =
        recover_submitted_commit_from_manifest nfc digest vault_id manifest revision head now
          before.database in
      let (state, returned, e₃) =
        continue_inv recovered.0 (record before { database = recovered.1 }) _ e₂ in
      let closed =
        match-IsClosed vault_id revision head _ now before.database recovered.1 state
          (ap (λ r. (r, recovered.1)) returned) in
      (
        subst
            (λ (p : Result SubmittedRecoveryResult × Local).
              get p.1.database.commit_intent_journal vault_id ≡ none)
            e₃ closed.0,
        subst (λ (r : SubmittedRecoveryResult). r.state.commit_in_progress ≡ false)
            (ok-injective (ap (λ (p : Result SubmittedRecoveryResult × Local). p.0) e₃)) closed.1,
      )

  resolved-IsClosed :
      (remote : SubmittedConfirmationRemoteState) (matched : Option ℕ) (before after : Local)
      (result : SubmittedRecoveryResult)
      → recover_resolved nfc digest vault_id tombstones now remote matched before
        ≡ (ok result, after)
      → IsClosed vault_id after.database result.state
  unfolding recover_resolved
  resolved-IsClosed remote (some revision) before after result e =
      flow-IsClosed revision remote.observed_head_revision remote.matched_manifest before after
        result e
  resolved-IsClosed remote none before after result e =
      let recovered = recover_submitted_commit_miss vault_id now before.database in
      let (state, returned, e₁) =
        continue_inv recovered.0 (record before { database = recovered.1 }) _ e in
      let closed =
        miss-IsClosed vault_id now before.database recovered.1 state
          (ap (λ r. (r, recovered.1)) returned) in
      (
        subst
            (λ (p : Result SubmittedRecoveryResult × Local).
              get p.1.database.commit_intent_journal vault_id ≡ none)
            e₁ closed.0,
        subst (λ (r : SubmittedRecoveryResult). r.state.commit_in_progress ≡ false)
            (ok-injective (ap (λ (p : Result SubmittedRecoveryResult × Local). p.0) e₁)) closed.1,
      )

  execute-IsClosed :
      (remote : SubmittedConfirmationRemoteState) (before after : Local)
      (result : SubmittedConfirmationExecutionResult)
      → execute_submitted_commit_confirmation_remote_state nfc digest vault_id tombstones now remote
          before
        ≡ (ok result, after)
      → IsClosed vault_id after.database result.recovery.state
  unfolding execute_submitted_commit_confirmation_remote_state
  execute-IsClosed remote before after result e =
      let (journal, _, e₁) =
        continue_inv
          (require (load_commit_intent_journal before.database vault_id)
            (key_error "commit_intent_journal not found" (vault_id ∷ [])))
          before _ e in
      let (plan, _, e₂) =
        continue_inv
          (plan_submitted_confirmation journal remote.observed_head_revision
            remote.head_commit_intent_id)
          before _ e₁ in
      let (_, _, e₃) =
        continue_inv (validate_scan_revision_metadata plan remote.revisions) before _ e₂ in
      let resolution =
        resolve_submitted_confirmation plan journal.commit_intent_id remote.revisions in
      let (_, _, e₄) =
        continue_inv
          (validate_submitted_confirmation_manifest vault_id plan resolution
            remote.matched_manifest)
          before _ e₃ in
      let resolved =
        recover_resolved nfc digest vault_id tombstones now remote (matched_at resolution) before in
      let (recovery, returned, e₅) = continue_inv resolved.0 resolved.1 _ e₄ in
      let closed =
        resolved-IsClosed remote (matched_at resolution) before resolved.1 recovery
          (ap (λ r. (r, resolved.1)) returned) in
      (
        subst
            (λ (p : Result SubmittedConfirmationExecutionResult × Local).
              get p.1.database.commit_intent_journal vault_id ≡ none)
            e₅ closed.0,
        subst
            (λ (r : SubmittedConfirmationExecutionResult).
              r.recovery.state.commit_in_progress ≡ false)
            (ok-injective
              (ap (λ (p : Result SubmittedConfirmationExecutionResult × Local). p.0) e₅))
            closed.1,
      )

  -- After a confirmation that returns, whether the server has the commit or not, the vault has no commit
  -- journal, and the recovery that is planned from the returned state is to do nothing.
  pub confirmation-closes :
      (remote : SubmittedConfirmationRemoteState) (before after : Local)
      (result : SubmittedConfirmationExecutionResult)
      → execute_submitted_commit_confirmation_remote_state nfc digest vault_id tombstones now remote
          before
        ≡ (ok result, after)
      → (load_commit_intent_journal after.database vault_id ≡ none)
        × ((plan_commit_recovery result.recovery.state
              (load_commit_intent_journal after.database vault_id)).mode
            ≡ idle)
  unfolding load_commit_intent_journal plan_commit_recovery
  confirmation-closes remote before after result e =
      let closed = execute-IsClosed remote before after result e in
      (closed.0, rw closed.0 (rw closed.1 refl))
