-- ===== src/Commit/Accepted.antt =====
-- sync_commit.py and sync_store.py: a request that a device sends passes the server's checks of its blobs.
use mathlib.Core.Path.{subst}
use personal_knowledge_base.Base.{
  String, ◌==◌, eq_iff, ◌≡◌, refl, ap, sym, ◌∙◌, true, false, not, List, [], ◌∷◌, map, nat_eq,
  is_some, All, Has, Has-map, All-Has, inl, inr, arith,
}
use personal_knowledge_base.Base.Dict.{Dict, get}
use personal_knowledge_base.Base.Index.{index}
use personal_knowledge_base.Base.Sort.{sorted, Has-sorted}
use personal_knowledge_base.Base.Exec.{
  ok, raise_if, >>=_inv, ok-injective, raise_if-eq-ok, value_error,
}
use personal_knowledge_base.Commit.Snapshot.{sets_differ}
use personal_knowledge_base.Commit.Submit.{CommitSubmissionBundle}
use personal_knowledge_base.Commit.Named.{OneEach, AllChecked, entry-named}
use personal_knowledge_base.Commit.Table.{CommitSnapshotEntry, CommitSnapshotTable}
use personal_knowledge_base.Commit.Network.{
  BlobCheckResult, blob_id_of, build_blob_check_request, same_texts, resolve_blob_check_result,
  BlobUploadPlanEntry, build_blob_upload_plan, CreateCommitBlobRef, CreateCommitRequestPayload,
  entry_key, manifest_key, check_entries, ref_leb, blob_ref_of, build_create_commit_request_payload,
  CommitNetworkPlan, build_commit_network_plan,
}
use personal_knowledge_base.Commit.Uploads.{blob_check-partitions}
use personal_knowledge_base.Commit.Planned.{upload_plan-Serves}
use personal_knowledge_base.Server.Vault.{ServerBlob}
use personal_knowledge_base.Server.Versions.{BlobRef}
use personal_knowledge_base.Server.Commits.{require_commit_blobs_exist}

-- A reference as the server reads it from the request.
abbrev pub received_ref : CreateCommitBlobRef → BlobRef
received_ref r = record { blob_id = r.blob_id; file_id = r.file_id }

-- What a built request keeps of the submission and of the table.
pub record Requests (submission : CommitSubmissionBundle) (table : CommitSnapshotTable)
    (r : CreateCommitRequestPayload) : Type 0 where
  pub manifest : r.manifest ≡ submission.manifest
  pub base : r.manifest.base_revision ≡ r.base_revision
  pub vault : r.manifest.vault_id ≡ table.vault_id
  pub refs : r.blob_refs ≡ map blob_ref_of (sorted ref_leb table.entries)
  pub same_files :
      sets_differ (map manifest_key submission.manifest.files) (map entry_key table.entries) ≡ false
  pub passes :
      check_entries
        (index entry_key [] table.entries)
        (index manifest_key [] submission.manifest.files)
      ≡ ok tt

payload-Requests :
    (submission : CommitSubmissionBundle) (table : CommitSnapshotTable)
    (r : CreateCommitRequestPayload)
    → build_create_commit_request_payload submission table ≡ ok r
    → Requests submission table r
unfolding build_create_commit_request_payload
payload-Requests submission table r h =
    let (_, vault, h₁) =
      >>=_inv (raise_if (not (submission.manifest.vault_id == table.vault_id)) _) _ h in
    let (_, _, h₂) =
      >>=_inv (raise_if (not (nat_eq submission.journal.base_revision table.base_revision)) _) _
        h₁ in
    let (_, _, h₃) =
      >>=_inv (raise_if (not (nat_eq submission.journal.created_at table.created_at)) _) _ h₂ in
    let (_, base, h₄) =
      >>=_inv
        (raise_if (not (nat_eq submission.manifest.base_revision submission.journal.base_revision))
          _)
        _ h₃ in
    let differ =
      sets_differ (map manifest_key submission.manifest.files) (map entry_key table.entries) in
    let other_files =
      value_error "commit submission manifest files do not match snapshot table entries" [] in
    let (_, same_files, h₅) = >>=_inv (raise_if differ other_files) _ h₄ in
    let (_, passes, h₆) =
      >>=_inv
        (check_entries (index entry_key [] table.entries)
          (index manifest_key [] submission.manifest.files))
        _ h₅ in
    subst (Requests submission table) (ok-injective h₆) (record {
      manifest = refl;
      base = ground (
        arith,
        raise_if-eq-ok
            (not (nat_eq submission.manifest.base_revision submission.journal.base_revision)) _
            base,
      );
      vault = (eq_iff submission.manifest.vault_id table.vault_id).0 (
          ground
            (arith, raise_if-eq-ok (not (submission.manifest.vault_id == table.vault_id)) _ vault));
      refs = refl;
      same_files = raise_if-eq-ok differ other_files same_files;
      passes = passes;
    })

-- The ids of a file in the table are not empty, and the server has its blob.
IsUploaded : Dict ServerBlob → CommitSnapshotEntry → Type 0
IsUploaded blobs e =
    ((e.blob_id == "") ≡ false)
    × ((e.file_id == "") ≡ false)
    × (is_some (get blobs e.blob_id) ≡ true)

refs_exist :
    (blobs : Dict ServerBlob) (es : List CommitSnapshotEntry)
    → ((e : CommitSnapshotEntry) → Has e es → IsUploaded blobs e)
    → require_commit_blobs_exist blobs (map received_ref (map blob_ref_of es)) ≡ ok tt
unfolding require_commit_blobs_exist IsUploaded
refs_exist blobs [] up = refl
refs_exist blobs (e ∷ es) up =
    let (blob, file, has) = up e (inl refl) in
    rw (blob, file, has) (refs_exist blobs es (λ x h. up x (inr h)))

-- Where the table has one entry for each file and each file of the manifest passes the checks of its
-- constructor: if the server answers a device's check of its blobs, the device builds its request from
-- that answer, and the server then has the blobs that it said it has and those of the upload plan, then
-- the request passes the server's check of its blobs, and its manifest has the vault of the table and is
-- based on the revision that the request names.
pub network_plan-passes :
    (submission : CommitSubmissionBundle) (table : CommitSnapshotTable)
    (existing missing : List String) (check : BlobCheckResult) (plan : CommitNetworkPlan)
    (blobs : Dict ServerBlob)
    → resolve_blob_check_result table existing missing ≡ ok check
    → build_commit_network_plan submission table check ≡ ok plan
    → All (λ i. is_some (get blobs i) ≡ true) check.existing_blob_ids
    → All
        (λ (u : BlobUploadPlanEntry). is_some (get blobs u.blob_id) ≡ true)
        plan.blob_uploads.entries
    → OneEach table.entries
    → AllChecked submission.manifest.files
    → (require_commit_blobs_exist blobs (map received_ref plan.request.blob_refs) ≡ ok tt)
      × (plan.request.manifest.base_revision ≡ plan.request.base_revision)
      × (plan.request.manifest.vault_id ≡ table.vault_id)
unfolding build_commit_network_plan IsUploaded
network_plan-passes submission table existing missing check plan blobs checked built has_existing
      has_uploaded one checked_files =
    let (_, _, h₁) =
      >>=_inv
        (raise_if (not (same_texts check.requested_blob_ids (build_blob_check_request table))) _) _
        built in
    let (request, requested, h₂) =
      >>=_inv (build_create_commit_request_payload submission table) _ h₁ in
    let (uploads, planned, h₃) =
      >>=_inv (build_blob_upload_plan table check.missing_blob_ids) _ h₂ in
    let same = ok-injective h₃ in
    let r = payload-Requests submission table request requested in
    let (_, listed, _) = blob_check-partitions table existing missing check checked in
    let uploaded : (e : CommitSnapshotEntry)
        → Has e (sorted ref_leb table.entries)
        → IsUploaded blobs e =
      λ e h.
        let here = Has-sorted ref_leb e table.entries h in
        let (blob, file) =
          entry-named submission.manifest.files table.entries e one checked_files r.same_files
            r.passes here in
        (
          blob,
          file,
          elim ((listed e.blob_id).0 (Has-map blob_id_of e table.entries here)) [
            | inl known ↦
                All-Has (λ i. is_some (get blobs i) ≡ true) e.blob_id check.existing_blob_ids
                  has_existing known
            | inr lacks ↦
                let (u, in_plan, serves) =
                  upload_plan-Serves table check.missing_blob_ids uploads e planned here lacks in
                subst (λ b. is_some (get blobs b) ≡ true) serves.blob
                  (All-Has (λ (x : BlobUploadPlanEntry). is_some (get blobs x.blob_id) ≡ true) u
                    uploads.entries
                    (subst
                      (λ (p : CommitNetworkPlan).
                        All (λ (x : BlobUploadPlanEntry). is_some (get blobs x.blob_id) ≡ true)
                          p.blob_uploads.entries)
                      (sym same) has_uploaded)
                    in_plan)
          ],
        ) in
    subst
      (λ (p : CommitNetworkPlan).
        (require_commit_blobs_exist blobs (map received_ref p.request.blob_refs) ≡ ok tt)
        × (p.request.manifest.base_revision ≡ p.request.base_revision)
        × (p.request.manifest.vault_id ≡ table.vault_id))
      same
      (
        ap (λ refs. require_commit_blobs_exist blobs (map received_ref refs)) r.refs
            ∙ refs_exist blobs (sorted ref_leb table.entries) uploaded,
        r.base,
        r.vault,
      )
