-- ===== src/Commit/Interrupted.antt =====
-- sync_commit.py and sync_apply.py: an interruption between the two writes of a commit's end.
use mathlib.Core.Path.{subst}
use personal_knowledge_base.Base.{
  ℕ, String, eq_iff, not, ◌≡◌, refl, ap, sym, ◌∙◌, true, some, List, [], ◌∷◌, arith, Option-cases,
  inl, inr,
}
use personal_knowledge_base.Base.Dict.{Dict, get, put, delete}
use personal_knowledge_base.Base.Exec.{
  Result, ok, raise_if, require, raise_if-eq-ok, require-eq, ok-injective, raise-ne-ok, value_error,
  key_error,
}
use personal_knowledge_base.Base.State.{continue_inv}
use personal_knowledge_base.Models.{
  VaultStateRecord, new_vault_state_record, TombstoneRecord, ManifestRecord,
  CommitIntentJournalRecord, CommitIntentStatus, prepared, submitted, acknowledged,
}
use personal_knowledge_base.Manifest.{
  CanonicalPayload, compute_manifest_summary_hash, finalize_manifest_revision,
}
use personal_knowledge_base.Recovery.{
  apply_committed_tombstones, apply_commit_success_state, apply_submitted_commit_match_recovery,
  normalize_commit_journal_for_recovery, requires_full_pull,
}
use personal_knowledge_base.Recovery.Tombstones.{apply_committed_twice}
use personal_knowledge_base.Store.Rows.{Database, load_commit_intent_journal}
use personal_knowledge_base.Store.Transactions.{
  close_commit, is_submitted, finalize_committed_state, recover_submitted_commit_match,
}
use personal_knowledge_base.Pull.Apply.{Local, rewrite_tombstone_ledger}
use personal_knowledge_base.Commit.Recover.{
  recover_submitted_commit_from_manifest, recover_submitted_commit_flow,
}
use personal_knowledge_base.Commit.Finalize.{
  CommitFinalizeResult, finalize_commit_manifest, finalize_commit_submission,
}

delete-put : {V : Type 0} (d : Dict V) (k : String) (v : V) → delete (put d k v) k ≡ delete d k
unfolding put delete
delete-put [] k v = ground (arith, eq_iff k k)
delete-put ((j, w) ∷ d) k v = ground (arith, delete-put d k v, eq_iff j k)

submitted_of : (status : CommitIntentStatus) → is_submitted status ≡ true → status ≡ submitted
submitted_of prepared h = absurd cc
submitted_of submitted h = refl
submitted_of acknowledged h = absurd cc

-- The state with another manifest summary.
abbrev pub resummarized : VaultStateRecord → String → VaultStateRecord
resummarized state summary = record state { last_manifest_summary = some summary }

-- The device at the end: the state is stored, the journal is gone, and the ledger is rewritten.
abbrev pub ended : String → VaultStateRecord → List TombstoneRecord → Local → Local
ended vault_id state tombstones local = record local {
  database = close_commit vault_id state local.database;
  ledger = tombstones;
}

module _ (vault_id : String) (revision : ℕ) (summary : String) (db : Database) where
  finalize_rows :
      (t : VaultStateRecord) (after : Database) (journal : CommitIntentJournalRecord)
      → get db.commit_intent_journal vault_id ≡ some journal
      → finalize_committed_state vault_id revision summary db ≡ (ok t, after)
      → (s : VaultStateRecord) × (get db.vault_state vault_id ≡ some s)
        × (apply_commit_success_state s revision summary ≡ ok t)
        × (after ≡ close_commit vault_id t db)
  unfolding finalize_committed_state
  finalize_rows t after journal has_journal e = elim (Option-cases (get db.vault_state vault_id)) [
    | inl missing ↦
        absurd
          (raise-ne-ok (ap (λ (p : Result VaultStateRecord × Database). p.0) (rw missing at e)))
    | inr (s, has_state) ↦
        let e' = rw has_journal at (rw has_state at e) in
        let (_, _, e₁) =
          continue_inv
            (raise_if (not (is_submitted journal.status))
              (value_error "commit finalization requires a submitted journal" []))
            db _ e' in
        let (updated, succeeds, e₂) =
          continue_inv (apply_commit_success_state s revision summary) db _ e₁ in
        let same : updated ≡ t =
          ok-injective (ap (λ (p : Result VaultStateRecord × Database). p.0) e₂) in
        (
          s,
          has_state,
          succeeds ∙ ap ok same,
          sym (ap (λ (p : Result VaultStateRecord × Database). p.1) e₂)
              ∙ ap (λ r. close_commit vault_id r db) same,
        )
  ]

  normalized_same :
      (now : ℕ) (journal : CommitIntentJournalRecord)
      → journal.status ≡ submitted
      → normalize_commit_journal_for_recovery journal now ≡ ok journal
  unfolding normalize_commit_journal_for_recovery
  normalized_same now journal h = rw h refl

  -- With another summary the recovery has the state that the end of the commit has, but for it.
  match_resummarized :
      (s t : VaultStateRecord) (other : String)
      → apply_commit_success_state s revision summary ≡ ok t
      → apply_submitted_commit_match_recovery s revision revision (some other)
        ≡ ok (resummarized t other)
  unfolding apply_submitted_commit_match_recovery apply_commit_success_state new_vault_state_record
  match_resummarized s t other e = ground arith

  match_recovers :
      (now : ℕ) (s t : VaultStateRecord) (journal : CommitIntentJournalRecord) (other : String)
      → get db.vault_state vault_id ≡ some s
      → get db.commit_intent_journal vault_id ≡ some journal
      → journal.status ≡ submitted
      → apply_commit_success_state s revision summary ≡ ok t
      → recover_submitted_commit_match vault_id revision revision (some other) now db
        ≡ (ok (resummarized t other), close_commit vault_id (resummarized t other) db)
  unfolding recover_submitted_commit_match
  match_recovers now s t journal other has_state has_journal h succeeds = rw has_state (
      rw has_journal (
        rw (normalized_same now journal h) (
          rw (match_resummarized s t other succeeds)
            (rw (delete-put db.commit_intent_journal vault_id journal) refl))))

-- The recovery, from the rows that it finds.
flow_recovers :
    (nfc : String → String) (digest : CanonicalPayload → String) (vault_id : String)
    (updated : List TombstoneRecord) (revision now : ℕ) (summary : String) (served : ManifestRecord)
    (local : Local) (s t : VaultStateRecord) (journal : CommitIntentJournalRecord)
    → get local.database.vault_state vault_id ≡ some s
    → get local.database.commit_intent_journal vault_id ≡ some journal
    → journal.status ≡ submitted
    → apply_committed_tombstones updated journal revision ≡ ok updated
    → apply_commit_success_state s revision summary ≡ ok t
    → let recovered = resummarized t (compute_manifest_summary_hash nfc digest served) in
      recover_submitted_commit_flow nfc digest vault_id updated revision revision now
        (some served)
        local
      ≡ (
        ok (record {
          state = recovered;
          tombstones = updated;
          needs_full_pull = requires_full_pull recovered;
        }),
        record local {
          database = close_commit vault_id recovered local.database;
          ledger = updated;
        },
      )
unfolding load_commit_intent_journal rewrite_tombstone_ledger recover_submitted_commit_flow
    recover_submitted_commit_from_manifest
flow_recovers nfc digest vault_id updated revision now summary served local s t journal has_state
      has_journal h twice succeeds =
    rw has_journal (
      rw twice (
        rw
          (match_recovers vault_id revision summary local.database now s t journal
            (compute_manifest_summary_hash nfc digest served) has_state has_journal h succeeds)
          refl))

-- The writes of a commit's end are the ledger, and then the state with the journal. If the device is
-- interrupted between them, the recovery that finds the commit at the head, whatever manifest the server
-- gives for it, returns and ends in the same ledger and file map, without the journal, and with the same
-- state but for its manifest summary, which is that of the server's manifest.
pub finalize-interrupted :
    (nfc : String → String) (digest : CanonicalPayload → String) (manifest served : ManifestRecord)
    (tombstones : List TombstoneRecord) (revision now : ℕ) (before after : Local)
    (result : CommitFinalizeResult)
    → finalize_commit_submission nfc digest manifest tombstones revision before ≡ (ok result, after)
    → let recovered = resummarized result.state (compute_manifest_summary_hash nfc digest served) in
      (recover_submitted_commit_flow nfc digest manifest.vault_id result.tombstones revision
          revision now
          (some served)
          (record before { ledger = result.tombstones })
        ≡ (
          ok (record {
            state = recovered;
            tombstones = result.tombstones;
            needs_full_pull = requires_full_pull recovered;
          }),
          ended manifest.vault_id recovered result.tombstones before,
        ))
      × (after ≡ ended manifest.vault_id result.state result.tombstones before)
unfolding finalize_commit_submission finalize_commit_manifest load_commit_intent_journal
    rewrite_tombstone_ledger
finalize-interrupted nfc digest manifest served tombstones revision now before after result e =
    let vault_id = manifest.vault_id in
    let db = before.database in
    let (journal, found, e₁) =
      continue_inv
        (require (load_commit_intent_journal db vault_id)
          (key_error "commit_intent_journal not found" (vault_id ∷ [])))
        before _ e in
    let (_, checked, e₂) =
      continue_inv
        (raise_if (not (is_submitted journal.status))
          (value_error "commit finalization requires a submitted journal" []))
        before _ e₁ in
    let (finalized, finalizes, e₃) =
      continue_inv (finalize_manifest_revision nfc digest manifest revision) before _ e₂ in
    let (updated, applied, e₄) =
      continue_inv (apply_committed_tombstones tombstones journal revision) before _ e₃ in
    let written = record before { ledger = updated } in
    let closed = finalize_committed_state vault_id revision finalized.summary_hash db in
    let (state, returned, e₅) =
      continue_inv closed.0 (record written { database = closed.1 }) _ e₄ in
    let has_journal =
      require-eq (get db.commit_intent_journal vault_id)
        (key_error "commit_intent_journal not found" (vault_id ∷ [])) found in
    let is_submitted_journal =
      submitted_of journal.status
        (ground (arith, raise_if-eq-ok (not (is_submitted journal.status)) _ checked)) in
    let (s, has_state, succeeds, is) =
      finalize_rows vault_id revision finalized.summary_hash db state closed.1 journal has_journal
        (ap (λ r. (r, closed.1)) returned) in
    let hash = compute_manifest_summary_hash nfc digest served in
    let made = ok-injective (ap (λ (p : Result CommitFinalizeResult × Local). p.0) e₅) in
    (
      subst
          (λ (r : CommitFinalizeResult).
            recover_submitted_commit_flow nfc digest vault_id r.tombstones revision revision now
              (some served) (record before { ledger = r.tombstones })
            ≡ (
              ok (record {
                state = resummarized r.state hash;
                tombstones = r.tombstones;
                needs_full_pull = requires_full_pull (resummarized r.state hash);
              }),
              ended vault_id (resummarized r.state hash) r.tombstones before,
            ))
          made
          (flow_recovers nfc digest vault_id updated revision now finalized.summary_hash served
            written s state journal has_state has_journal is_submitted_journal
            (apply_committed_twice tombstones updated journal revision revision applied) succeeds),
      subst (λ (r : CommitFinalizeResult). after ≡ ended vault_id r.state r.tombstones before) made
          (sym (ap (λ (p : Result CommitFinalizeResult × Local). p.1) e₅)
            ∙ ap (λ d. record written { database = d }) is),
    )
