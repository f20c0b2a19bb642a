-- ===== src/Server/Effects/Commits.antt =====
-- sync_store.py: what a commit does to the log of a vault.
use mathlib.Core.Path.{subst}
use personal_knowledge_base.Base.{
  ℕ, ◌+◌, ◌≤◌, nat_eq, String, ◌==◌, eq_iff, ◌≡◌, refl, ap, ◌∙◌, not, none, some, [], arith,
  Bool-cases, Option-cases, inl, inr,
}
use personal_knowledge_base.Server.Effects.{
  Effect, appends, keeps, acknowledge-Acks, finalize-FinalizedAs, versions_only,
}
use personal_knowledge_base.Base.Dict.{Dict, get, put, get-put_same}
use personal_knowledge_base.Base.Exec.{
  ok, raise_if, >>=_inv, ok-injective, raise-ne-ok, raise_if-eq-ok, commit_conflict,
}
use personal_knowledge_base.Manifest.{CanonicalPayload}
use personal_knowledge_base.Paths.Decimal.{decimal}
use personal_knowledge_base.Server.Vault.{
  FileVersionSource, ServerCommit, ServerBlob, ServerVault, acknowledge,
}
use personal_knowledge_base.Server.Manifests.{finalize_manifest_payload}
use personal_knowledge_base.Server.Versions.{append_file_versions_for_commit}
use personal_knowledge_base.Server.Commits.{
  CommitRequest, CommitResponse, repeat_commit, append_commit, commit_mutation,
  require_commit_blobs_exist,
}

-- The response names the revision at which the vault has the commit.
abbrev pub Answers : CommitRequest → CommitResponse → ServerVault → Type 0
Answers request response w =
    (c : ServerCommit) × (get w.commits request.commit_intent_id ≡ some c)
    × (c.intent_manifest_hash ≡ request.intent_manifest_hash)
    × (c.revision ≡ response.new_revision)

module _ (nfc : String → String) (digest : CanonicalPayload → String)
    (name : (vault_id file_id : String) (revision : ℕ) (blob_id : String)
      → FileVersionSource
      → String)
    (blobs : Dict ServerBlob) (v w : ServerVault) (request : CommitRequest) (device : String)
    (now_ms : ℕ) (response : CommitResponse) where
  pub append_commit-Effect :
      get v.commits request.commit_intent_id ≡ none
      → request.manifest.base_revision ≡ request.base_revision
      → append_commit nfc digest name blobs v request device now_ms ≡ ok (response, w)
      → Effect v w × Answers request response w × (response.new_revision ≡ v.head_revision + 1)
  unfolding append_commit acknowledge
  append_commit-Effect new same_base e =
      let (_, at_head, e₁) =
        >>=_inv
          (raise_if (not (nat_eq request.base_revision v.head_revision))
            (commit_conflict "base_revision_conflict" v.head_revision v.manifest_summary))
          _ e in
      let (_, _, e₂) = >>=_inv (require_commit_blobs_exist blobs request.blob_refs) _ e₁ in
      let (f, finalizes, e₃) =
        >>=_inv (finalize_manifest_payload nfc digest request.manifest (v.head_revision + 1)) _
          e₂ in
      let extended = record v {
        manifests = put v.manifests (decimal (v.head_revision + 1)) f;
        head_revision = v.head_revision + 1;
        manifest_summary = some f.summary_hash;
      } in
      let (u, versions, e₄) =
        >>=_inv
          (append_file_versions_for_commit name f extended request.blob_refs
            request.file_version_directives)
          _ e₃ in
      let only =
        versions_only name f extended u request.blob_refs request.file_version_directives
          versions in
      let facts =
        finalize-FinalizedAs nfc digest request.manifest f (v.head_revision + 1) finalizes in
      let c : ServerCommit = record {
        commit_intent_id = request.commit_intent_id;
        intent_manifest_hash = request.intent_manifest_hash;
        revision = v.head_revision + 1;
        created_by_device = device;
        committed_at_ms = now_ms;
        kind = none;
        reclaimed_file_ids = [];
      } in
      let committed = record u { commits = put u.commits request.commit_intent_id c } in
      let base_is_head : request.base_revision ≡ v.head_revision =
        ground
          (arith, raise_if-eq-ok (not (nat_eq request.base_revision v.head_revision)) _ at_head) in
      subst
        (λ (p : CommitResponse × ServerVault).
          Effect v p.1 × Answers request p.0 p.1 × (p.0.new_revision ≡ v.head_revision + 1))
        (ok-injective e₄)
        (
          appends f request.commit_intent_id c facts.revised
              (facts.based ∙ same_base ∙ base_is_head)
              (ap (λ (x : ServerVault). x.head_revision) only)
              (ap (λ (x : ServerVault). x.manifests) only)
              (ap (λ (x : ServerVault). x.manifest_summary) only)
              (ap (λ (x : ServerVault). put x.commits request.commit_intent_id c) only) refl
              (inl new)
              (acknowledge-Acks v committed device (v.head_revision + 1)
                (ap (λ (x : ServerVault). x.acks) only)
                (omega (arith, ap (λ (x : ServerVault). x.head_revision) only))),
          (c, get-put_same u.commits request.commit_intent_id c, refl, refl),
          refl,
        )

  pub repeat_commit-Effect :
      (existing : ServerCommit)
      → existing.revision ≤ v.head_revision
      → get v.commits request.commit_intent_id ≡ some existing
      → repeat_commit v request device existing ≡ ok (response, w)
      → Effect v w × Answers request response w × (response.new_revision ≡ existing.revision)
  unfolding repeat_commit acknowledge
  repeat_commit-Effect existing le has e =
      elim (Bool-cases (existing.intent_manifest_hash == request.intent_manifest_hash)) [
        | inl same ↦
            subst
              (λ (p : CommitResponse × ServerVault).
                Effect v p.1 × Answers request p.0 p.1 × (p.0.new_revision ≡ existing.revision))
              (ok-injective (rw same at e))
              (
                keeps refl refl refl refl (acknowledge-Acks v v device existing.revision refl le),
                (
                  existing,
                  has,
                  (eq_iff existing.intent_manifest_hash request.intent_manifest_hash).0 same,
                  refl,
                ),
                refl,
              )
        | inr other ↦ absurd (raise-ne-ok (rw other at e))
      ]

  -- A commit that returns either appends its manifest, or was made before.
  pub commit_mutation-Effect :
      ((i : String) (c : ServerCommit) → get v.commits i ≡ some c → c.revision ≤ v.head_revision)
      → request.manifest.base_revision ≡ request.base_revision
      → commit_mutation nfc digest name blobs v request device now_ms ≡ ok (response, w)
      → Effect v w × Answers request response w
  unfolding commit_mutation
  commit_mutation-Effect le same_base e =
      elim (Option-cases (get v.commits request.commit_intent_id)) [
        | inl new ↦
            let (effect, answers, _) =
              append_commit-Effect new same_base (rw (new, commit_mutation) at e) in
            (effect, answers)
        | inr (existing, has) ↦
            let (effect, answers, _) =
              repeat_commit-Effect existing (le request.commit_intent_id existing has) has
                (rw (has, commit_mutation) at e) in
            (effect, answers)
      ]
