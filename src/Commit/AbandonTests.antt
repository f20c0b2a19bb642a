-- ===== src/Commit/AbandonTests.antt =====
-- A commit that is prepared on a small database.
use personal_knowledge_base.Base.{◌≡◌, refl, true, false, none, some, [], ◌∷◌, inr}
use personal_knowledge_base.Base.Dict.{get, put}
use personal_knowledge_base.Base.Exec.{ok, raise, value_error}
use personal_knowledge_base.Models.{
  VaultStateRecord, new_vault_state_record, valid, submitted, CommitIntentJournalRecord,
  new_commit_intent_journal_record,
}
use personal_knowledge_base.Recovery.{should_block_new_commit}
use personal_knowledge_base.Store.Rows.{Database, load_vault_state, load_commit_intent_journal}
use personal_knowledge_base.Commit.Prepare.{
  CommitPreparationBundle, intent_of, prepare_commit_intent, cleanup_failed_commit_submission,
}
use personal_knowledge_base.Commit.Abandon.{prepare-cleanup, prepare_again}

abbrev ready : VaultStateRecord
ready = record {
  vault_id = "v";
  last_applied_revision = 5;
  remote_head_revision = 5;
  acked_revision = 5;
  pending_ack_to_server = 5 ∷ [];
  commit_in_progress = false;
  last_manifest_summary = some "sha256:5";
  last_manifest_summary_status = valid;
  local_delete_sequence = 2;
  has_unresolved_conflicts = false;
  schema_version = "v1";
  meta = none;
}

abbrev locked : VaultStateRecord
locked = record ready { commit_in_progress = true }

abbrev quiet : Database
quiet = record {
  vault_state = ("v", ready) ∷ [];
  sync_apply_journal = [];
  commit_intent_journal = [];
}

abbrev preparing : Database
preparing = record {
  vault_state = ("v", locked) ∷ [];
  sync_apply_journal = [];
  commit_intent_journal = ("v", intent_of ready "c1" "laptop" 20) ∷ [];
}

abbrev bundle : CommitPreparationBundle
bundle = record { journal = intent_of ready "c1" "laptop" 20; state = locked }

prepare : prepare_commit_intent ready "c1" "laptop" 20 quiet ≡ (ok bundle, preparing)
unfolding prepare_commit_intent should_block_new_commit new_vault_state_record
    new_commit_intent_journal_record get put
prepare = refl

-- The journal is submitted when the server refuses the commit.
abbrev sent : CommitIntentJournalRecord
sent = record (intent_of ready "c1" "laptop" 20) {
  intent_manifest_hash = "sha256:i";
  status = submitted;
}

abbrev refused : Database
refused = record preparing { commit_intent_journal = ("v", sent) ∷ [] }

has_sent : get refused.commit_intent_journal "v" ≡ some sent
unfolding get
has_sent = refl

prepare-cleanup_example :
    (final : Database) × (cleanup_failed_commit_submission "v" 30 refused ≡ (ok ready, final))
    × (load_vault_state final "v" ≡ some ready)
    × (load_commit_intent_journal final "v" ≡ none)
prepare-cleanup_example =
    prepare-cleanup ready "c1" "laptop" 20 quiet preparing bundle prepare 30 refused sent refl
      has_sent (inr refl)

prepare_again_example :
    prepare_commit_intent locked "c2" "laptop" 25 preparing
    ≡ (raise (value_error "vault_state is not eligible to start a new commit" []), preparing)
prepare_again_example =
    prepare_again ready "c1" "laptop" 20 quiet preparing bundle prepare locked "c2" "laptop" 25 refl
