-- ===== src/Server/Effects.antt =====
-- sync_store.py: what a method can do to the log of a vault.
pub mod Commits
pub mod Collect
use mathlib.Core.Path.{subst}
use personal_knowledge_base.Base.{
  ℕ, ◌+◌, ◌≤◌, nat_eq, ltb, max, String, ◌==◌, eq_iff, ◌⊎◌, ◌≡◌, refl, ap, sym, ◌∙◌, Bool, true,
  false, not, ◌||◌, Option, none, some, List, [], ◌∷◌, arith, filter, map, any, is_some,
  if◌then◌else◌, Bool-cases, Option-cases, inl, inr,
}
use personal_knowledge_base.Base.Dict.{Dict, get, put, get-put, get-put_same}
use personal_knowledge_base.Base.Exec.{
  Result, ok, raise, raise_if, ◌>>=◌, >>=_inv, ok-injective, raise-ne-ok, raise_if-eq-ok, traverse,
  commit_conflict, store_error,
}
use personal_knowledge_base.Models.{ManifestRecord, TombstoneRecord}
use personal_knowledge_base.Manifest.{CanonicalPayload}
use personal_knowledge_base.Paths.Decimal.{decimal}
use personal_knowledge_base.Server.Vault.{
  FileVersionSource, ServerCommit, ServerBlob, ServerDevice, GcResult, ServerVault, or_zero,
  acknowledge,
}
use personal_knowledge_base.Server.Manifests.{
  finalize_manifest_payload, normalize_payload_entry, normalize_payload_tombstone,
}
use personal_knowledge_base.Server.Versions.{
  BlobRef, FileVersionDirective, files_by_id, directive_ids, append_file_versions_for_commit,
  parse_file_version_directives,
}
use personal_knowledge_base.Server.Commits.{
  CommitRequest, CommitResponse, repeat_commit, append_commit, commit_mutation,
  require_commit_blobs_exist,
}
use personal_knowledge_base.Server.Devices.{max_of, ack_vault}
use personal_knowledge_base.Server.Collect.{
  GcRun, acked_by, gc_intent_id, gc_actor, is_nonempty, is_kept, active_vault_device_ids,
  write_gc_manifest, collect_head, run_tombstone_gc_locked, append_tombstone_gc_log,
}

-- Acknowledgements only grow, and not beyond the head.
pub record Acks (v w : ServerVault) : Type 0 where
  pub grow : (i : String) → acked_by v i ≤ acked_by w i
  pub bounded : (i : String) → acked_by w i ≤ max (acked_by v i) w.head_revision

-- A commit record is written at a new id, or at the id of a run of the garbage collection.
abbrev pub IsFree : ServerVault → String → Type 0
IsFree v key = (get v.commits key ≡ none) ⊎ ((run_id : String) × (key ≡ gc_intent_id run_id))

-- A method keeps the log, or appends one manifest to it with one commit record.
pub data Effect (v w : ServerVault) : Type 0 where
  keeps :
      w.head_revision ≡ v.head_revision
      → w.manifests ≡ v.manifests
      → w.manifest_summary ≡ v.manifest_summary
      → w.commits ≡ v.commits
      → Acks v w
      → Effect v w
  appends :
      (m : ManifestRecord) (key : String) (c : ServerCommit)
      → m.revision ≡ v.head_revision + 1
      → m.base_revision ≡ v.head_revision
      → w.head_revision ≡ v.head_revision + 1
      → w.manifests ≡ put v.manifests (decimal (v.head_revision + 1)) m
      → w.manifest_summary ≡ some m.summary_hash
      → w.commits ≡ put v.commits key c
      → c.revision ≡ v.head_revision + 1
      → IsFree v key
      → Acks v w
      → Effect v w

acked-acknowledge :
    (v : ServerVault) (d i : String) (n : ℕ)
    → acked_by (acknowledge v d n) i ≡ (if d == i then max (acked_by v i) n else acked_by v i)
unfolding acknowledge
acked-acknowledge v d i n = elim (Bool-cases (d == i)) [
  | inl e ↦ ground (
    arith,
    get-put v.acks d i (max (or_zero (get v.acks d)) n),
    ap (get v.acks) ((eq_iff d i).0 e),
  )
  | inr e ↦ ground (arith, get-put v.acks d i (max (or_zero (get v.acks d)) n))
]

-- An acknowledgement up to the head, in a vault with these acknowledgements.
pub acknowledge-Acks :
    (v w : ServerVault) (d : String) (n : ℕ)
    → w.acks ≡ v.acks
    → n ≤ w.head_revision
    → Acks v (acknowledge w d n)
unfolding acknowledge
acknowledge-Acks v w d n same le = record {
  grow =
      λ i. ground (arith, acked-acknowledge w d i n, ap (λ (a : Dict ℕ). or_zero (get a i)) same);
  bounded =
      λ i. ground (arith, acked-acknowledge w d i n, ap (λ (a : Dict ℕ). or_zero (get a i)) same);
}

pub same-Acks : (v w : ServerVault) → w.acks ≡ v.acks → Acks v w
same-Acks v w same = record {
  grow = λ i. omega (arith, ap (λ (a : Dict ℕ). or_zero (get a i)) same);
  bounded = λ i. ground (arith, ap (λ (a : Dict ℕ). or_zero (get a i)) same);
}

Acks-trans :
    (u v w : ServerVault)
    → v.head_revision ≡ u.head_revision
    → v.head_revision ≤ w.head_revision
    → Acks u v
    → Acks v w
    → Acks u w
Acks-trans u v w same le a b = record {
  grow = λ i. omega (arith, a.grow i, b.grow i);
  bounded = λ i. ground (arith, a.bounded i, b.bounded i);
}

pub record FinalizedAs (m : ManifestRecord) (revision : ℕ) (f : ManifestRecord) : Type 0 where
  pub revised : f.revision ≡ revision
  pub based : f.base_revision ≡ m.base_revision

pub finalize-FinalizedAs :
    (nfc : String → String) (digest : CanonicalPayload → String) (m f : ManifestRecord) (n : ℕ)
    → finalize_manifest_payload nfc digest m n ≡ ok f
    → FinalizedAs m n f
unfolding finalize_manifest_payload
finalize-FinalizedAs nfc digest m f n e =
    let (_, _, e₁) = >>=_inv (raise_if (not (m.schema_version == "v1")) _) _ e in
    let (_, _, e₂) = >>=_inv (raise_if (m.vault_id == "") _) _ e₁ in
    let (_, _, e₃) = >>=_inv (raise_if (m.created_by_device == "") _) _ e₂ in
    let (files, _, e₄) = >>=_inv (traverse (normalize_payload_entry nfc) m.files) _ e₃ in
    let (stones, _, e₅) =
      >>=_inv (traverse (normalize_payload_tombstone nfc n) m.tombstones) _ e₄ in
    subst (FinalizedAs m n) (ok-injective e₅) (record { revised = refl; based = refl })

pub versions_only :
    (name : (vault_id file_id : String) (revision : ℕ) (blob_id : String)
      → FileVersionSource
      → String)
    (m : ManifestRecord) (v w : ServerVault) (refs : List BlobRef)
    (directives : List FileVersionDirective)
    → append_file_versions_for_commit name m v refs directives ≡ ok w
    → w ≡ record v { file_versions = w.file_versions }
unfolding append_file_versions_for_commit
versions_only name m v w refs given e =
    let (directives, _, e₁) = >>=_inv (parse_file_version_directives [] given) _ e in
    let (_, _, e₂) =
      >>=_inv
        (raise_if
          (any (λ i. not (is_some (get (files_by_id [] m.files) i))) (directive_ids directives))
          (store_error "invalid_request"
            "file_version_directives reference files not present in manifest"))
        _ e₁ in
    subst (λ (x : ServerVault). x ≡ record v { file_versions = x.file_versions }) (ok-injective e₂)
      refl

IsFree-before :
    (u v : ServerVault) (key : String) → v.commits ≡ u.commits → IsFree v key → IsFree u key
IsFree-before u v key same free = elim free [
  | inl new ↦ inl (ap (λ (d : Dict ServerCommit). get d key) (sym same) ∙ new)
  | inr run ↦ inr run
]

-- What follows an acknowledgement.
pub keeps_then :
    (u v w : ServerVault)
    → v.head_revision ≡ u.head_revision
    → v.manifests ≡ u.manifests
    → v.manifest_summary ≡ u.manifest_summary
    → v.commits ≡ u.commits
    → Acks u v
    → Effect v w
    → Effect u w
keeps_then u v w h ms s cs a (keeps h' ms' s' cs' a') =
    keeps (h' ∙ h) (ms' ∙ ms) (s' ∙ s) (cs' ∙ cs) (Acks-trans u v w h (omega (arith, h')) a a')
keeps_then u v w h ms s cs a (appends m key c r b h' ms' s' cs' cr free a') =
    appends m key c (omega (arith, r, h)) (b ∙ h) (omega (arith, h', h)) (ms' ∙ cc (h, ms)) s'
      (cs' ∙ cc cs) (omega (arith, cr, h)) (IsFree-before u v key cs free)
      (Acks-trans u v w h (omega (arith, h')) a a')

-- The log of the runs is no part of the effect.
logged_after :
    (v w : ServerVault) (result : GcResult)
    → Effect v w
    → Effect v (append_tombstone_gc_log w result)
unfolding append_tombstone_gc_log
logged_after v w result (keeps h ms s cs a) =
    keeps h ms s cs (record { grow = a.grow; bounded = a.bounded })
logged_after v w result (appends m key c r b h ms s cs cr free a) =
    appends m key c r b h ms s cs cr free (record { grow = a.grow; bounded = a.bounded })
