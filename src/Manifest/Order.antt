-- ===== src/Manifest/Order.antt =====
-- manifest.py: a hash depends on what a manifest lists, and not on the order of the lists.
use mathlib.Core.List.{Permᴰ}
use personal_knowledge_base.Base.{
  ℕ, String, ◌==◌, eq_iff, ◌≡◌, sym, ap, ◌∙◌, true, false, List, [], ◌∷◌, map, Apart, Has, All-Has,
  inl, inr, arith, Apart-map,
}
use personal_knowledge_base.Base.Text.{str_leb_total, str_leb_trans, str_leb_antisymm}
use personal_knowledge_base.Base.Canonical.{sorted-perm_eq}
use personal_knowledge_base.Base.Sort.{sorted}
use personal_knowledge_base.Base.Exec.{ok, >>=_inv}
use personal_knowledge_base.Models.{
  TombstoneRecord, ManifestFileEntry, ManifestRecord, new_manifest_record,
}
use personal_knowledge_base.Convergence.Defs.{entry_leb}
use personal_knowledge_base.Manifest.{
  TombstonePayload, CanonicalPayload, final, intent, payload_leb, normalize_file_entry,
  normalize_tombstone, canonical_manifest_payload, compute_manifest_summary_hash,
  compute_intent_manifest_hash, finalize_manifest_revision,
}

pub entry_total : (a b : ManifestFileEntry) → entry_leb a b ≡ false → entry_leb b a ≡ true
entry_total a b h = ground (
  arith,
  eq_iff a.path b.path,
  eq_iff b.path a.path,
  str_leb_total a.path b.path,
  str_leb_total a.file_id b.file_id,
)

pub entry_trans :
    (a b c : ManifestFileEntry) → entry_leb a b ≡ true → entry_leb b c ≡ true → entry_leb a c ≡ true
entry_trans a b c h k = ground (
  arith,
  eq_iff a.path b.path,
  eq_iff b.path c.path,
  eq_iff a.path c.path,
  str_leb_trans a.path b.path c.path,
  str_leb_antisymm a.path b.path,
  str_leb_antisymm b.path c.path,
  str_leb_trans a.file_id b.file_id c.file_id,
)

entry_anti :
    (a b : ManifestFileEntry) → entry_leb a b ≡ true → entry_leb b a ≡ true → a.file_id ≡ b.file_id
entry_anti a b h k = ground (
  arith,
  eq_iff a.path b.path,
  eq_iff b.path a.path,
  str_leb_antisymm a.path b.path,
  str_leb_antisymm a.file_id b.file_id,
)

pub seq_total : (a b : TombstonePayload) → payload_leb a b ≡ false → payload_leb b a ≡ true
seq_total a b h = ground (arith, str_leb_total a.record_.file_id b.record_.file_id)

pub seq_trans :
    (a b c : TombstonePayload)
    → payload_leb a b ≡ true
    → payload_leb b c ≡ true
    → payload_leb a c ≡ true
seq_trans a b c h k =
    ground (arith, str_leb_trans a.record_.file_id b.record_.file_id c.record_.file_id)

seq_anti :
    (a b : TombstonePayload)
    → payload_leb a b ≡ true
    → payload_leb b a ≡ true
    → a.record_.file_id ≡ b.record_.file_id
seq_anti a b h k = ground (arith, str_leb_antisymm a.record_.file_id b.record_.file_id)

-- In a list with one element for each key, the key tells the element.
pub by_key :
    {A : Type 0} (key : A → String) (xs : List A)
    → Apart (λ x y. key x == key y) xs
    → (a b : A) → Has a xs
    → Has b xs
    → key a ≡ key b
    → a ≡ b
by_key key [] h a b ha hb e = absurd ha
by_key key (x ∷ xs) h a b (inl p) (inl q) e = p ∙ sym q
by_key key (x ∷ xs) h a b (inl p) (inr hb) e = absurd (
    ground (
      arith,
      All-Has (λ y. (key x == key y) ≡ false) b xs h.0 hb,
      eq_iff (key x) (key b),
      ap key p,
    ))
by_key key (x ∷ xs) h a b (inr ha) (inl q) e = absurd (
    ground (
      arith,
      All-Has (λ y. (key x == key y) ≡ false) a xs h.0 ha,
      eq_iff (key x) (key a),
      ap key q,
    ))
by_key key (x ∷ xs) h a b (inr ha) (inr hb) e = by_key key xs h.1 a b ha hb e

map-perm : {A B : Type 0} (f : A → B) {xs ys : List A} → Permᴰ xs ys → Permᴰ (map f xs) (map f ys)
map-perm f Permᴰ.nil = Permᴰ.nil
map-perm f (Permᴰ.cons e p) = Permᴰ.cons (ap f e) (map-perm f p)
map-perm f (Permᴰ.swap e g) = Permᴰ.swap (ap f e) (ap f g)
map-perm f (Permᴰ.trans p q) = Permᴰ.trans (map-perm f p) (map-perm f q)

-- Each `file_id` has one entry and one tombstone at most.
pub record HasOneEach (m : ManifestRecord) : Type 0 where
  pub files : Apart (λ (x y : ManifestFileEntry). x.file_id == y.file_id) m.files
  pub tombstones : Apart (λ (x y : TombstoneRecord). x.file_id == y.file_id) m.tombstones

-- A manifest with its files and its tombstones listed in another order.
pub record IsReordered (m n : ManifestRecord) : Type 0 where
  pub files : Permᴰ m.files n.files
  pub tombstones : Permᴰ m.tombstones n.tombstones
  pub rest : n ≡ record m { files = n.files; tombstones = n.tombstones }

module _ (nfc : String → String) (digest : CanonicalPayload → String) where
  files_eq :
      {xs ys : List ManifestFileEntry}
      → Apart (λ x y. x.file_id == y.file_id) xs
      → Permᴰ xs ys
      → sorted entry_leb (map (normalize_file_entry nfc) xs)
        ≡ sorted entry_leb (map (normalize_file_entry nfc) ys)
  unfolding normalize_file_entry
  files_eq {xs} distinct p =
      sorted-perm_eq entry_leb entry_total entry_trans (map-perm (normalize_file_entry nfc) p)
        (λ a b ha hb h k.
          by_key (λ r. r.file_id) _
            (Apart-map (λ x y. x.file_id == y.file_id) (normalize_file_entry nfc) xs distinct) a b
            ha hb (entry_anti a b h k))

  tombstones_eq :
      (purpose : personal_knowledge_base.Manifest.ManifestHashPurpose)
      {xs ys : List TombstoneRecord}
      → Apart (λ x y. x.file_id == y.file_id) xs
      → Permᴰ xs ys
      → sorted payload_leb (map (normalize_tombstone nfc purpose) xs)
        ≡ sorted payload_leb (map (normalize_tombstone nfc purpose) ys)
  unfolding normalize_tombstone
  tombstones_eq purpose {xs} distinct p =
      sorted-perm_eq payload_leb seq_total seq_trans (map-perm (normalize_tombstone nfc purpose) p)
        (λ a b ha hb h k.
          by_key (λ r. r.record_.file_id) _
            (Apart-map (λ x y. x.record_.file_id == y.record_.file_id)
              (normalize_tombstone nfc purpose) xs distinct)
            a b ha hb (seq_anti a b h k))

  -- Two manifests that differ only in the order of their lists have one canonical form for each
  -- purpose, and so one summary hash and one intent hash, where no `file_id` is listed twice.
  pub hashes-reordered :
      (m n : ManifestRecord)
      → HasOneEach m
      → IsReordered m n
      → (compute_manifest_summary_hash nfc digest m ≡ compute_manifest_summary_hash nfc digest n)
        × (compute_intent_manifest_hash nfc digest m ≡ compute_intent_manifest_hash nfc digest n)
  unfolding compute_manifest_summary_hash compute_intent_manifest_hash
  hashes-reordered m n one r = (
    cc (r.rest, files_eq one.files r.files, tombstones_eq final one.tombstones r.tombstones),
    cc (r.rest, files_eq one.files r.files, tombstones_eq intent one.tombstones r.tombstones),
  )

  finalize_shape :
      (m f : ManifestRecord) (revision : ℕ)
      → finalize_manifest_revision nfc digest m revision ≡ ok f
      → f ≡ record m {
        revision = revision;
        summary_hash = compute_manifest_summary_hash nfc digest (record m { revision = revision });
      }
  unfolding finalize_manifest_revision new_manifest_record
  finalize_shape m f revision e =
      let (revised, one, after) =
        >>=_inv
          (new_manifest_record (record m { revision = revision; summary_hash = "placeholder" })) _
          e in
      ground arith

  -- To give a manifest its revision changes its intent hash in no way, and stores the summary hash of
  -- the revised manifest.
  pub finalize-hashes :
      (m f : ManifestRecord) (revision : ℕ)
      → finalize_manifest_revision nfc digest m revision ≡ ok f
      → (compute_intent_manifest_hash nfc digest f ≡ compute_intent_manifest_hash nfc digest m)
        × (f.summary_hash ≡ compute_manifest_summary_hash nfc digest f)
        × (f.revision ≡ revision)
  unfolding compute_manifest_summary_hash compute_intent_manifest_hash
  finalize-hashes m f revision e =
      let shape = finalize_shape m f revision e in (rw shape, rw shape, rw shape)
