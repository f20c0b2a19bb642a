-- ===== src/Commit/Submitted.antt =====
-- sync_commit.py: what a prepared and submitted commit leaves in the tables.
use mathlib.Core.Path.{subst}
use personal_knowledge_base.Base.{
  ℕ, String, ◌==◌, ◌≡◌, refl, ap, sym, ◌∙◌, not, none, some, List, [], ◌∷◌, nat_eq, Apart,
}
use personal_knowledge_base.Base.Dict.{get, put, get-put_same}
use personal_knowledge_base.Base.Exec.{Result, ok, ok-injective, raise_if, require, key_error}
use personal_knowledge_base.Base.State.{continue_inv}
use personal_knowledge_base.Models.{
  FileRecord, FileMapDocument, TombstoneRecord, ManifestRecord, VaultStateRecord,
  CommitIntentJournalRecord, new_commit_intent_journal_record, submitted,
}
use personal_knowledge_base.Manifest.{CanonicalPayload, compute_intent_manifest_hash}
use personal_knowledge_base.Store.Rows.{
  Database, load_vault_state, load_commit_intent_journal, upsert_commit_intent_journal,
}
use personal_knowledge_base.Store.Transactions.{is_prepared}
use personal_knowledge_base.Commit.Prepare.{intent_of, prepare_commit_intent}
use personal_knowledge_base.Commit.Abandon.{lock, prepared_database, journal-eq, prepare-eq}
use personal_knowledge_base.Commit.Entries.{active_files, build_commit_manifest}
use personal_knowledge_base.Commit.Snapshot.{
  ContentSnapshotPlan, build_content_snapshot_plan, build_commit_manifest_from_snapshot_plan,
}
use personal_knowledge_base.Commit.Frozen.{fresh_plan-manifest}
use personal_knowledge_base.Commit.Submit.{
  CommitSubmissionBundle, FrozenCommitPreparationBundle, has_unresolved_conflict_copy,
  prepare_frozen_commit_intent, submitted_manifest, submit_prepared_commit,
  prepare_commit_submission,
}

module _ (nfc : String → String) (digest : CanonicalPayload → String) where
  -- A submission from a plan, where the journal is prepared.
  record Submits (vault_id : String) (document : FileMapDocument)
      (tombstones : List TombstoneRecord) (at : ℕ) (plan : ContentSnapshotPlan)
      (journal : CommitIntentJournalRecord) (db after : Database) (b : CommitSubmissionBundle)
      : Type 0 where
    manifest :
        build_commit_manifest_from_snapshot_plan nfc document plan tombstones journal.base_revision
          journal.created_by_device journal.created_at
        ≡ ok b.manifest
    hash : b.intent_manifest_hash ≡ compute_intent_manifest_hash nfc digest b.manifest
    record_ : b.journal ≡ record journal {
      intent_manifest_hash = compute_intent_manifest_hash nfc digest b.manifest;
      status = submitted;
      updated_at = at;
    }
    written : after ≡ record db {
      commit_intent_journal = put db.commit_intent_journal b.journal.vault_id b.journal;
    }

  from_plan :
      (vault_id : String) (document : FileMapDocument) (tombstones : List TombstoneRecord)
      (plan : ContentSnapshotPlan) (journal : CommitIntentJournalRecord) (db after : Database)
      (m : ManifestRecord)
      → submitted_manifest nfc digest vault_id journal document tombstones (some plan) db
        ≡ (ok m, after)
      → (after ≡ db)
        × (build_commit_manifest_from_snapshot_plan nfc document plan tombstones
              journal.base_revision journal.created_by_device journal.created_at
            ≡ ok m)
  unfolding submitted_manifest
  from_plan vault_id document tombstones plan journal db after m h =
      let (_, _, h₁) = continue_inv (raise_if (not (plan.vault_id == vault_id)) _) db _ h in
      let (_, _, h₂) =
        continue_inv (raise_if (not (nat_eq plan.base_revision journal.base_revision)) _) db _ h₁ in
      let (_, _, h₃) =
        continue_inv (raise_if (not (nat_eq plan.created_at journal.created_at)) _) db _ h₂ in
      (
        sym (ap (λ (p : Result ManifestRecord × Database). p.1) h₃),
        ap (λ (p : Result ManifestRecord × Database). p.0) h₃,
      )

  submit-Submits :
      (vault_id : String) (document : FileMapDocument) (tombstones : List TombstoneRecord) (at : ℕ)
      (plan : ContentSnapshotPlan) (journal : CommitIntentJournalRecord) (db after : Database)
      (b : CommitSubmissionBundle)
      → get db.commit_intent_journal vault_id ≡ some journal
      → submit_prepared_commit nfc digest vault_id document tombstones at (some plan) db
        ≡ (ok b, after)
      → Submits vault_id document tombstones at plan journal db after b
  unfolding submit_prepared_commit load_commit_intent_journal load_vault_state
      upsert_commit_intent_journal
  submit-Submits vault_id document tombstones at plan journal db after b has_journal h =
      let (found, got, h₁) =
        continue_inv (require (get db.commit_intent_journal vault_id) _) db _ h in
      let same : found ≡ journal = ok-injective (
        sym got
        ∙ ap (λ o. require o (key_error "commit_intent_journal not found" (vault_id ∷ [])))
            has_journal) in
      let (_, _, h₂) = continue_inv (raise_if (not (is_prepared found.status)) _) db _ h₁ in
      let (state, _, h₃) = continue_inv (require (get db.vault_state vault_id) _) db _ h₂ in
      let made = submitted_manifest nfc digest vault_id found document tombstones (some plan) db in
      let (m, is_m, h₄) = continue_inv made.0 made.1 _ h₃ in
      let (unchanged, built) =
        from_plan vault_id document tombstones plan found db made.1 m
          (ap (λ r. (r, made.1)) is_m) in
      let next = record found {
        intent_manifest_hash = compute_intent_manifest_hash nfc digest m;
        status = submitted;
        updated_at = at;
      } in
      let (j, new, h₅) = continue_inv (new_commit_intent_journal_record next) made.1 _ h₄ in
      let bundle : CommitIntentJournalRecord → CommitSubmissionBundle = λ x. record {
        manifest = m;
        intent_manifest_hash = compute_intent_manifest_hash nfc digest m;
        journal = x;
        state = state;
        snapshot_plan = none;
        file_version_directives = [];
      } in
      let stored : CommitIntentJournalRecord → Database = λ x. record made.1 {
        commit_intent_journal = put made.1.commit_intent_journal x.vault_id x;
      } in
      let Goal = Submits vault_id document tombstones at plan in
      let at_next : Goal found made.1 (stored next) (bundle next) = record {
        manifest = built;
        hash = refl;
        record_ = refl;
        written = refl;
      } in
      let at_j =
        subst (λ x. Goal found made.1 (stored x) (bundle x)) (sym (journal-eq next j new))
          at_next in
      let at_after =
        subst (λ d. Goal found made.1 d (bundle j))
          (ap (λ (p : Result CommitSubmissionBundle × Database). p.1) h₅) at_j in
      let at_b =
        subst (Goal found made.1 after)
          (ok-injective (ap (λ (p : Result CommitSubmissionBundle × Database). p.0) h₅)) at_after in
      subst (λ x. Goal x db after b) same (subst (λ d. Goal found d after b) unchanged at_b)

  -- The tables have the submitted journal of this bundle, and the locked state.
  abbrev pub Recorded :
      VaultStateRecord
      → FileMapDocument
      → List TombstoneRecord
      → (commit_intent_id device : String) → (at : ℕ) → Database
      → CommitSubmissionBundle
      → Type 0
  Recorded state document tombstones commit_intent_id device at after b =
      (build_commit_manifest nfc document tombstones state.last_applied_revision device at
        ≡ ok b.manifest)
      × (b.intent_manifest_hash ≡ compute_intent_manifest_hash nfc digest b.manifest)
      × (load_commit_intent_journal after state.vault_id
          ≡ some (record (intent_of state commit_intent_id device at) {
            intent_manifest_hash = compute_intent_manifest_hash nfc digest b.manifest;
            status = submitted;
            updated_at = at;
          }))
      × (load_vault_state after state.vault_id ≡ some (lock state))

  -- A commit that is prepared and submitted in one call has the manifest that the file map gives at the
  -- last applied revision, where each active file has a `file_id` of its own. The tables then hold its
  -- journal, submitted under that revision and the manifest's intent hash, and the state, locked.
  pub submission-Recorded :
      (state : VaultStateRecord) (document : FileMapDocument) (tombstones : List TombstoneRecord)
      (commit_intent_id device : String) (at : ℕ) (db after : Database) (b : CommitSubmissionBundle)
      → Apart (λ (x y : FileRecord). x.file_id == y.file_id) (active_files document)
      → prepare_commit_submission nfc digest state document tombstones commit_intent_id device at db
        ≡ (ok b, after)
      → Recorded state document tombstones commit_intent_id device at after b
  unfolding prepare_commit_submission prepare_frozen_commit_intent load_commit_intent_journal
      load_vault_state
  submission-Recorded state document tombstones commit_intent_id device at db after b distinct h =
      let intent = intent_of state commit_intent_id device at in
      let frozen =
        prepare_frozen_commit_intent nfc digest state document commit_intent_id device at db in
      let (f, is_f, h₁) = continue_inv frozen.0 frozen.1 _ h in
      let (_, _, k₁) =
        continue_inv (raise_if (has_unresolved_conflict_copy document) _) db _
          (ap (λ r. (r, frozen.1)) is_f) in
      let prep = prepare_commit_intent state commit_intent_id device at db in
      let (p, is_p, k₂) = continue_inv prep.0 prep.1 _ k₁ in
      let returned = ap (λ r. (r, prep.1)) is_p in
      let (_, _, written) = prepare-eq state commit_intent_id device at db prep.1 p returned in
      let (plan, planned, k₃) =
        continue_inv (build_content_snapshot_plan nfc document p.journal.base_revision at) prep.1 _
          k₂ in
      let same_plan : plan ≡ f.snapshot_plan =
        ap (λ (x : FrozenCommitPreparationBundle). x.snapshot_plan)
          (ok-injective (ap (λ (x : Result FrozenCommitPreparationBundle × Database). x.0) k₃)) in
      let now : frozen.1 ≡ prepared_database state intent db =
        sym (ap (λ (x : Result FrozenCommitPreparationBundle × Database). x.1) k₃) ∙ written in
      let sub =
        submit_prepared_commit nfc digest state.vault_id document tombstones at
          (some f.snapshot_plan) frozen.1 in
      let (s, is_s, h₂) = continue_inv sub.0 sub.1 _ h₁ in
      let has_journal =
        ap (λ (d : Database). get d.commit_intent_journal state.vault_id) now
        ∙ get-put_same db.commit_intent_journal state.vault_id intent in
      let facts =
        submit-Submits state.vault_id document tombstones at f.snapshot_plan intent frozen.1 sub.1 s
          has_journal (ap (λ r. (r, sub.1)) is_s) in
      let last =
        sym (ap (λ (x : Result CommitSubmissionBundle × Database). x.1) h₂) ∙ facts.written in
      let recorded : Recorded state document tombstones commit_intent_id device at after s = (
        sym (
              fresh_plan-manifest nfc document p.journal.base_revision at f.snapshot_plan
                (planned ∙ ap ok same_plan) distinct tombstones state.last_applied_revision device
                at)
            ∙ facts.manifest,
        facts.hash,
        ap (λ (d : Database). get d.commit_intent_journal state.vault_id) last
            ∙ ap
                (λ (j : CommitIntentJournalRecord).
                  get (put frozen.1.commit_intent_journal j.vault_id j) state.vault_id)
                facts.record_
            ∙ get-put_same frozen.1.commit_intent_journal state.vault_id _,
        ap (λ (d : Database). get d.vault_state state.vault_id) last
            ∙ ap (λ (d : Database). get d.vault_state state.vault_id) now
            ∙ get-put_same db.vault_state state.vault_id (lock state),
      ) in
      subst (Recorded state document tombstones commit_intent_id device at after)
        (ok-injective (ap (λ (x : Result CommitSubmissionBundle × Database). x.0) h₂)) recorded
