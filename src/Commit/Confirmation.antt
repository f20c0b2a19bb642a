-- ===== src/Commit/Confirmation.antt =====
-- The plan of a confirmation, and its answer from the server's revisions.
use personal_knowledge_base.Base.{
  ℕ, ◌+◌, String, ◌==◌, Bool, true, false, not, ◌||◌, Option, none, some, List, [], ◌∷◌, any, ltb,
  nat_eq, if◌then◌else◌,
}
use personal_knowledge_base.Base.Exec.{
  Result, ok, ◌>>=◌, ◌>>◌, raise_if, require, value_error, raise,
}
use personal_knowledge_base.Models.{
  ManifestRecord, VaultStateRecord, CommitIntentJournalRecord, prepared,
}

pub record RevisionMetadata : Type 0 where
  pub revision : ℕ
  pub commit_intent_id : String
  pub intent_manifest_hash : String
  pub created_by_device : String
  pub created_at : ℕ

pub data ConfirmationMode : Type 0 where
  head_match miss scan_range : ConfirmationMode

pub record SubmittedConfirmationPlan : Type 0 where
  pub mode : ConfirmationMode
  pub observed_head_revision : ℕ
  pub matched_revision : Option ℕ
  pub scan_from_revision : Option ℕ
  pub scan_to_revision : Option ℕ

pub record SubmittedConfirmationResolution : Type 0 where
  pub plan : SubmittedConfirmationPlan
  pub matched_metadata : Option RevisionMetadata

unfoldable pub plan_submitted_confirmation :
    CommitIntentJournalRecord
    → (observed_head_revision : ℕ) → (head_commit_intent_id : String)
    → Result SubmittedConfirmationPlan
plan_submitted_confirmation journal observed head_commit_intent_id = do
  raise_if (ltb observed journal.base_revision)
      (value_error "observed_head_revision cannot be older than journal.base_revision" [])
  if head_commit_intent_id == journal.commit_intent_id
      then ok (record {
        mode = head_match;
        observed_head_revision = observed;
        matched_revision = some observed;
        scan_from_revision = none;
        scan_to_revision = none;
      })
      else if ltb observed (journal.base_revision + 1)
      then ok (record {
        mode = miss;
        observed_head_revision = observed;
        matched_revision = none;
        scan_from_revision = none;
        scan_to_revision = none;
      })
      else ok (record {
        mode = scan_range;
        observed_head_revision = observed;
        matched_revision = none;
        scan_from_revision = some (journal.base_revision + 1);
        scan_to_revision = some observed;
      })

unfoldable pub find_matching_revision_metadata :
    List RevisionMetadata → (commit_intent_id : String) → Option RevisionMetadata
find_matching_revision_metadata [] commit_intent_id = none
find_matching_revision_metadata (r ∷ rest) commit_intent_id =
    let later = find_matching_revision_metadata rest commit_intent_id in
    if r.commit_intent_id == commit_intent_id then some r else later

unfoldable pub resolve_submitted_confirmation :
    SubmittedConfirmationPlan
    → (commit_intent_id : String) → List RevisionMetadata
    → SubmittedConfirmationResolution
unfolding find_matching_revision_metadata
resolve_submitted_confirmation plan commit_intent_id revisions = elim plan.mode [
  | head_match ↦ record { plan = plan; matched_metadata = none }
  | miss ↦ record { plan = plan; matched_metadata = none }
  | scan_range ↦ record {
    plan = plan;
    matched_metadata = find_matching_revision_metadata revisions commit_intent_id;
  }
]

-- A revision that is not in the window raises.
abbrev pub outside : ℕ → ℕ → RevisionMetadata → Bool
outside from to r = ltb r.revision from || ltb to r.revision

unfoldable pub check_window : SubmittedConfirmationPlan → List RevisionMetadata → Result (Unit {0})
check_window plan revisions = do
  from ←
      require plan.scan_from_revision
        (value_error "scan_range submitted confirmation plan must define a revision window" [])
  to ←
      require plan.scan_to_revision
        (value_error "scan_range submitted confirmation plan must define a revision window" [])
  raise_if (any (outside from to) revisions)
      (value_error "revision metadata falls outside submitted confirmation scan range" [])

unfoldable pub validate_scan_revision_metadata :
    SubmittedConfirmationPlan → List RevisionMetadata → Result (Unit {0})
unfolding check_window
validate_scan_revision_metadata plan revisions = elim plan.mode [
  | scan_range ↦ check_window plan revisions
  | _ ↦ ok tt
]

-- The revision that a manifest has to have.
unfoldable pub expected_revision :
    SubmittedConfirmationPlan → SubmittedConfirmationResolution → Result (Option ℕ)
expected_revision plan resolution = elim plan.mode [
  | miss ↦
      raise (value_error "matched_manifest is not allowed when submitted confirmation misses" [])
  | head_match ↦ ok plan.matched_revision
  | scan_range ↦ elim resolution.matched_metadata [
    | none ↦ raise (value_error "matched_manifest requires a matched submitted revision" [])
    | some metadata ↦ ok (some metadata.revision)
  ]
]

unfoldable pub validate_manifest :
    (vault_id : String)
    → SubmittedConfirmationPlan
    → SubmittedConfirmationResolution
    → ManifestRecord
    → Result (Unit {0})
unfolding expected_revision
validate_manifest vault_id plan resolution manifest = do
  raise_if (not (manifest.vault_id == vault_id))
      (value_error "matched_manifest vault_id does not match submitted confirmation vault" [])
  found ← expected_revision plan resolution
  expected ←
      require found (value_error "submitted confirmation did not resolve a matched revision" [])
  raise_if (not (nat_eq manifest.revision expected))
      (value_error "matched_manifest revision does not match submitted confirmation target" [])

unfoldable pub validate_submitted_confirmation_manifest :
    (vault_id : String)
    → SubmittedConfirmationPlan
    → SubmittedConfirmationResolution
    → Option ManifestRecord
    → Result (Unit {0})
unfolding validate_manifest
validate_submitted_confirmation_manifest vault_id plan resolution matched_manifest =
    elim matched_manifest [
      | none ↦ ok tt
      | some manifest ↦ validate_manifest vault_id plan resolution manifest
    ]

pub data RecoveryMode : Type 0 where
  idle orphaned_lock prepared_cleanup submitted_confirmation : RecoveryMode

pub record CommitRecoveryPlan : Type 0 where
  pub mode : RecoveryMode
  pub should_cleanup_staging : Bool
  pub requires_remote_confirmation : Bool

unfoldable pub plan_commit_recovery :
    VaultStateRecord → Option CommitIntentJournalRecord → CommitRecoveryPlan
plan_commit_recovery state none =
    if state.commit_in_progress
    then record {
      mode = orphaned_lock;
      should_cleanup_staging = true;
      requires_remote_confirmation = false;
    }
    else record {
      mode = idle;
      should_cleanup_staging = false;
      requires_remote_confirmation = false;
    }
plan_commit_recovery state (some journal) = elim journal.status [
  | prepared ↦ record {
    mode = prepared_cleanup;
    should_cleanup_staging = true;
    requires_remote_confirmation = false;
  }
  | _ ↦ record {
    mode = submitted_confirmation;
    should_cleanup_staging = false;
    requires_remote_confirmation = true;
  }
]
