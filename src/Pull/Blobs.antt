-- ===== src/Pull/Blobs.antt =====
-- sync_apply.py: the blobs that a pulled manifest needs.
use mathlib.Core.Path.{subst}
use personal_knowledge_base.Base.{
  String, ◌==◌, eq_iff, ◌≡◌, ◌⊎◌, refl, ap, sym, ◌∙◌, some, filter, Option-cases, Has-of_filter,
  Has-of_any, Bool, true, false, ◌||◌, List, [], ◌∷◌, any, arith, All, All-imp, All-Has, Apart, Has,
  Bool-cases, inl, inr,
}
use personal_knowledge_base.Base.Dict.{Dict, get, put}
use personal_knowledge_base.Base.Index.{index, index_found}
use personal_knowledge_base.Base.Sort.{sorted, sorted-Has}
use personal_knowledge_base.Models.{
  FileStatus, active, deleted, conflict_copy, is_active, FileRecord, FileMapDocument,
  ManifestFileEntry, ManifestRecord,
}
use personal_knowledge_base.Convergence.Defs.{entry_leb, add_by_id, file_record_id}
use personal_knowledge_base.Pull.Plan.{
  is_current, required_loop, current_active_by_file_id, plan_required_blob_ids,
}

abbrev pub same_text : String → String → Bool
same_text a b = a == b

-- The blob is in the list.
abbrev pub lists : List String → String → Bool
lists blob_ids blob_id = any (λ b. b == blob_id) blob_ids

module _ (current : Dict FileRecord) where
  -- What was seen before is not listed.
  required-fresh :
      (seen : List String) (entries : List ManifestFileEntry)
      → All (λ b. lists seen b ≡ false) (required_loop current seen entries)
  unfolding required_loop
  required-fresh seen [] = tt
  required-fresh seen (e ∷ es) =
      elim (Bool-cases (is_current (get current e.file_id) e || lists seen e.blob_id)) [
        | inl q ↦ rw q (required-fresh seen es)
        | inr q ↦ rw q (
          ground arith,
          All-imp (λ b. lists (e.blob_id ∷ seen) b ≡ false) (λ b. lists seen b ≡ false)
              (λ b h. ground arith) (required_loop current (e.blob_id ∷ seen) es)
              (required-fresh (e.blob_id ∷ seen) es),
        )
      ]

  required-Apart :
      (seen : List String) (entries : List ManifestFileEntry)
      → Apart same_text (required_loop current seen entries)
  unfolding required_loop
  required-Apart seen [] = tt
  required-Apart seen (e ∷ es) =
      elim (Bool-cases (is_current (get current e.file_id) e || lists seen e.blob_id)) [
        | inl q ↦ rw q (required-Apart seen es)
        | inr q ↦ rw q (
          All-imp (λ b. lists (e.blob_id ∷ seen) b ≡ false) (λ b. same_text e.blob_id b ≡ false)
              (λ b h. ground arith) (required_loop current (e.blob_id ∷ seen) es)
              (required-fresh (e.blob_id ∷ seen) es),
          required-Apart (e.blob_id ∷ seen) es,
        )
      ]

  covered : List String → List String → ManifestFileEntry → Bool
  covered seen listed e =
      is_current (get current e.file_id) e || (lists seen e.blob_id || lists listed e.blob_id)

  required_skipped :
      (seen : List String) (e : ManifestFileEntry) (es : List ManifestFileEntry)
      → (is_current (get current e.file_id) e || lists seen e.blob_id) ≡ true
      → required_loop current seen (e ∷ es) ≡ required_loop current seen es
  unfolding required_loop
  required_skipped seen e es q = rw q

  required_listed :
      (seen : List String) (e : ManifestFileEntry) (es : List ManifestFileEntry)
      → (is_current (get current e.file_id) e || lists seen e.blob_id) ≡ false
      → required_loop current seen (e ∷ es)
        ≡ e.blob_id ∷ required_loop current (e.blob_id ∷ seen) es
  unfolding required_loop
  required_listed seen e es q = rw q

  required-covers :
      (seen : List String) (entries : List ManifestFileEntry)
      → All (λ e. covered seen (required_loop current seen entries) e ≡ true) entries
  unfolding covered
  required-covers seen [] = tt
  required-covers seen (e ∷ es) =
      elim (Bool-cases (is_current (get current e.file_id) e || lists seen e.blob_id)) [
        | inl q ↦
            subst (λ listed. All (λ x. covered seen listed x ≡ true) (e ∷ es))
              (sym (required_skipped seen e es q)) (ground arith, required-covers seen es)
        | inr q ↦
            subst (λ listed. All (λ x. covered seen listed x ≡ true) (e ∷ es))
              (sym (required_listed seen e es q))
              (
                ground (arith, eq_iff e.blob_id e.blob_id),
                All-imp
                    (λ x.
                      covered (e.blob_id ∷ seen) (required_loop current (e.blob_id ∷ seen) es) x
                      ≡ true)
                    (λ x.
                      covered seen (e.blob_id ∷ required_loop current (e.blob_id ∷ seen) es) x
                      ≡ true)
                    (λ x h. ground arith) es (required-covers (e.blob_id ∷ seen) es),
              )
      ]

add_by_id-eq :
    (d : Dict FileRecord) (rs : List FileRecord)
    → add_by_id file_record_id d rs ≡ index file_record_id d rs
unfolding add_by_id index
add_by_id-eq d [] = refl
add_by_id-eq d (r ∷ rs) = add_by_id-eq (put d r.file_id r) rs

active_of : (status : FileStatus) → is_active status ≡ true → status ≡ active
active_of active e = refl
active_of deleted e = absurd cc
active_of conflict_copy e = absurd cc

-- The file map has an active record of the entry's file, with the entry's content.
abbrev pub HasContent : FileMapDocument → ManifestFileEntry → Type 0
HasContent document e =
    (r : FileRecord) × Has r document.files
    × (r.status ≡ active)
    × (r.file_id ≡ e.file_id)
    × (r.content_hash ≡ some e.content_hash)

same_content :
    (r : FileRecord) (e : ManifestFileEntry)
    → is_current (some r) e ≡ true
    → r.content_hash ≡ some e.content_hash
unfolding is_current
same_content r e h = elim (Option-cases r.content_hash) [
  | inl missing ↦ absurd (let clash = rw missing at h in cc)
  | inr (hash, has) ↦ has ∙ ap some ((eq_iff hash e.content_hash).0 (rw has at h))
]

current-HasContent :
    (document : FileMapDocument) (e : ManifestFileEntry)
    → is_current (get (current_active_by_file_id document) e.file_id) e ≡ true
    → HasContent document e
unfolding is_current
current-HasContent document e h =
    let current = current_active_by_file_id document in
    elim (Option-cases (get current e.file_id)) [
      | inl missing ↦ absurd (let clash = rw missing at h in cc)
      | inr (r, has) ↦
          let actives = filter (λ (x : FileRecord). is_active x.status) document.files in
          let (in_actives, id) =
            index_found file_record_id actives e.file_id r (
              ap (λ (d : Dict FileRecord). get d e.file_id) (sym (add_by_id-eq [] actives))
              ∙ has) in
          let (here, is) =
            Has-of_filter (λ (x : FileRecord). is_active x.status) r document.files in_actives in
          (
            r,
            here,
            active_of r.status is,
            id,
            same_content r e (ap (λ o. is_current o e) (sym has) ∙ h),
          )
    ]

-- No blob is asked for twice, and for each file of the manifest the file map has an active record with the
-- entry's content hash, or the entry's blob is asked for.
pub required_blobs :
    (document : FileMapDocument) (manifest : ManifestRecord)
    → Apart same_text (plan_required_blob_ids document manifest)
      × ((e : ManifestFileEntry)
          → Has e manifest.files
          → HasContent document e ⊎ Has e.blob_id (plan_required_blob_ids document manifest))
unfolding plan_required_blob_ids covered
required_blobs document manifest =
    let current = current_active_by_file_id document in
    let entries = sorted entry_leb manifest.files in
    let blob_ids = required_loop current [] entries in
    (
      required-Apart current [] entries,
      λ e h.
          let both : (is_current (get current e.file_id) e || lists blob_ids e.blob_id) ≡ true =
            All-Has _ e entries (required-covers current [] entries)
              (sorted-Has entry_leb e manifest.files h) in
          elim (Bool-cases (is_current (get current e.file_id) e)) [
            | inl now ↦ inl (current-HasContent document e now)
            | inr lacks ↦
                let (b, has, same) = Has-of_any (λ b. b == e.blob_id) blob_ids (rw lacks at both) in
                inr (subst (λ x. Has x blob_ids) ((eq_iff b e.blob_id).0 same) has)
          ],
    )
