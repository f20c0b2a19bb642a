-- ===== src/Pull/Plan.antt =====
-- sync_plan.py, and the blobs that sync_apply.py asks for.
use personal_knowledge_base.Base.{
  ℕ, String, ◌==◌, Bool, false, not, ◌&&◌, ◌||◌, Option, none, some, List, [], ◌∷◌, any, filter,
  ltb, if◌then◌else◌,
}
use personal_knowledge_base.Base.Dict.{Dict, get}
use personal_knowledge_base.Base.Sort.{sorted}
use personal_knowledge_base.Models.{
  is_active, FileRecord, FileMapDocument, ManifestFileEntry, ManifestRecord, VaultStateRecord,
}
use personal_knowledge_base.Convergence.Defs.{add_by_id, file_record_id, entry_leb}
use personal_knowledge_base.Recovery.{requires_full_pull}

pub record ReconcilePlan : Type 0 where
  pub observed_head_revision : ℕ
  pub target_revision : ℕ
  pub should_download_manifest : Bool
  pub needs_full_pull : Bool
  pub can_use_summary_shortcut : Bool

unfoldable pub plan_pull_reconcile : VaultStateRecord → (observed_head_revision : ℕ) → ReconcilePlan
unfolding requires_full_pull
plan_pull_reconcile state observed_head_revision =
    let full_pull = requires_full_pull state in
    let download = full_pull || ltb state.last_applied_revision observed_head_revision in
    record {
      observed_head_revision = observed_head_revision;
      target_revision = observed_head_revision;
      should_download_manifest = download;
      needs_full_pull = full_pull;
      can_use_summary_shortcut = download && not full_pull;
    }

-- The file has the entry's content already.
unfoldable pub is_current : Option FileRecord → ManifestFileEntry → Bool
is_current none entry = false
is_current (some current) entry = elim current.content_hash [
  | none ↦ false
  | some hash ↦ hash == entry.content_hash
]

-- The loop of `plan_required_blob_ids`, with the blobs that it has seen.
unfoldable pub required_loop :
    Dict FileRecord → (seen_blob_ids : List String) → List ManifestFileEntry → List String
unfolding is_current
required_loop current seen [] = []
required_loop current seen (entry ∷ rest) =
    let skipped = required_loop current seen rest in
    let listed = required_loop current (entry.blob_id ∷ seen) rest in
    if is_current (get current entry.file_id) entry
      || any (λ blob_id. blob_id == entry.blob_id) seen
    then skipped
    else entry.blob_id ∷ listed

abbrev pub current_active_by_file_id : FileMapDocument → Dict FileRecord
current_active_by_file_id document =
    add_by_id file_record_id [] (filter (λ r. is_active r.status) document.files)

unfoldable pub plan_required_blob_ids : FileMapDocument → ManifestRecord → List String
unfolding required_loop
plan_required_blob_ids current_document manifest =
    required_loop (current_active_by_file_id current_document) [] (sorted entry_leb manifest.files)
