-- ===== src/Recovery/Tests.antt =====
-- recovery.py on a small state.
use personal_knowledge_base.Base.{
  ℕ, String, ◌≡◌, refl, true, false, Option, none, some, List, [], ◌∷◌, Has, ◌⊎◌, ◌↔◌, arith,
}
use personal_knowledge_base.Base.Exec.{ok}
use personal_knowledge_base.Models.{
  VaultStateRecord, valid, new_vault_state_record, TombstoneRecord, new_tombstone_record,
  CommitIntentJournalRecord, submitted,
}
use personal_knowledge_base.Recovery.{
  apply_manifest_reconciled_state, apply_commit_success_state, sorted_unique_revisions,
  apply_committed_tombstones, select_pending_tombstones_for_commit,
}
use personal_knowledge_base.Recovery.Coherence.{
  IsCoherent, IsForward, here, next, reconciled, committed_at, Transitions-IsCoherent,
}
use personal_knowledge_base.Recovery.Pending.{IsAscending, pending_ack-reconciled}
use personal_knowledge_base.Recovery.Tombstones.{select-apply_committed, apply_committed_twice}

abbrev start : VaultStateRecord
start = record {
  vault_id = "v";
  last_applied_revision = 3;
  remote_head_revision = 3;
  acked_revision = 3;
  pending_ack_to_server = 3 ∷ 1 ∷ [];
  commit_in_progress = true;
  last_manifest_summary = some "sha256:3";
  last_manifest_summary_status = valid;
  local_delete_sequence = 2;
  has_unresolved_conflicts = false;
  schema_version = "v1";
  meta = none;
}

abbrev pulled : VaultStateRecord
pulled = record start {
  last_applied_revision = 5;
  remote_head_revision = 5;
  acked_revision = 5;
  pending_ack_to_server = 1 ∷ 3 ∷ 5 ∷ [];
  last_manifest_summary = some "sha256:5";
}

pull : apply_manifest_reconciled_state start 5 "sha256:5" ≡ ok pulled
unfolding apply_manifest_reconciled_state new_vault_state_record sorted_unique_revisions
pull = refl

abbrev done : VaultStateRecord
done = record pulled {
  last_applied_revision = 6;
  remote_head_revision = 6;
  acked_revision = 6;
  commit_in_progress = false;
  last_manifest_summary = some "sha256:6";
}

finish : apply_commit_success_state pulled 6 "sha256:6" ≡ ok done
unfolding apply_commit_success_state new_vault_state_record
finish = refl

Transitions-IsCoherent_example : IsCoherent done × IsForward start done
Transitions-IsCoherent_example =
    Transitions-IsCoherent {s = start} {t = done}
      (record { acked = omega arith; applied = omega arith; summary = refl })
      (next (next here (reconciled 5 "sha256:5" pull)) (committed_at 6 "sha256:6" finish))

pending_ack-reconciled_example :
    IsAscending (1 ∷ 3 ∷ 5 ∷ [])
    × ((n : ℕ) → Has n (1 ∷ 3 ∷ 5 ∷ []) ↔ (Has n (3 ∷ 1 ∷ []) ⊎ (n ≡ 5)))
pending_ack-reconciled_example = pending_ack-reconciled start {t = pulled} 5 "sha256:5" pull

abbrev stone : String → Option ℕ → ℕ → TombstoneRecord
stone file_id revision seq = record {
  file_id = file_id;
  deleted_revision = revision;
  deleted_at = 10;
  local_delete_seq = seq;
  last_known_path = none;
  deleted_by_device = none;
  meta = none;
}

abbrev journal : CommitIntentJournalRecord
journal = record {
  vault_id = "v";
  commit_intent_id = "i";
  intent_manifest_hash = "h";
  base_revision = 3;
  created_by_device = "pc";
  status = submitted;
  created_at = 11;
  updated_at = 11;
  intent_delete_seq_upper_bound = some 2;
}

abbrev before : List TombstoneRecord
before = stone "a" none 1 ∷ stone "b" (some 2) 0 ∷ stone "c" none 3 ∷ []

abbrev after : List TombstoneRecord
after = stone "a" (some 4) 1 ∷ stone "b" (some 2) 0 ∷ stone "c" none 3 ∷ []

commit : apply_committed_tombstones before journal 4 ≡ ok after
unfolding apply_committed_tombstones new_tombstone_record
commit = refl

select-apply_committed_example : select_pending_tombstones_for_commit after journal ≡ []
select-apply_committed_example = select-apply_committed before after journal 4 commit

apply_committed_twice_example : apply_committed_tombstones after journal 7 ≡ ok after
apply_committed_twice_example = apply_committed_twice before after journal 4 7 commit
