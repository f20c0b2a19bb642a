-- ===== src/Server/Summary.antt =====
-- sync_store.py and manifest.py: the summary that the server stores, and the one that a device computes.
use mathlib.Core.Path.{subst}
use personal_knowledge_base.Base.{
  ℕ, String, ◌==◌, ◌≡◌, refl, ap, sym, ◌∙◌, true, Option, none, some, List, [], ◌∷◌, map, All,
}
use personal_knowledge_base.Base.Sort.{sorted, IsSorted, sorted-IsSorted, sorted_fixed, All-sorted}
use personal_knowledge_base.Base.Exec.{ok, raise_if, >>=_inv, ok-injective, traverse-All}
use personal_knowledge_base.Models.{TombstoneRecord, ManifestFileEntry, ManifestRecord}
use personal_knowledge_base.Convergence.Defs.{entry_leb, seq_leb}
use personal_knowledge_base.Manifest.{
  CanonicalPayload, final, final_payload, payload_leb, normalize_file_entry, normalize_tombstone,
  compute_manifest_summary_hash,
}
use personal_knowledge_base.Manifest.Order.{entry_total, entry_trans, seq_total, seq_trans}
use personal_knowledge_base.Server.Manifests.{
  normalize_payload_entry, normalize_payload_tombstone, finalize_manifest_payload, finalize_inv,
  payload_of, is_blank, dated,
}

abbrev normal_path_of : (String → String) → Option String → Option String
normal_path_of nfc none = none
normal_path_of nfc (some p) = some (nfc p)

map_fixed :
    {A B : Type 0} (f g : A → B) (xs : List A) → All (λ x. f x ≡ g x) xs → map f xs ≡ map g xs
map_fixed f g [] h = refl
map_fixed f g (x ∷ xs) h = cc (h.0, map_fixed f g xs h.1)

map_same : {A : Type 0} (f : A → A) (xs : List A) → All (λ x. f x ≡ x) xs → map f xs ≡ xs
map_same f [] h = refl
map_same f (x ∷ xs) h = cc (h.0, map_same f xs h.1)

payloads-below :
    (r : TombstoneRecord) (xs : List TombstoneRecord)
    → All (λ y. seq_leb r y ≡ true) xs
    → All (λ y. payload_leb (payload_of r) y ≡ true) (map payload_of xs)
payloads-below r [] h = tt
payloads-below r (x ∷ xs) h = (h.0, payloads-below r xs h.1)

payloads-IsSorted :
    (xs : List TombstoneRecord) → IsSorted seq_leb xs → IsSorted payload_leb (map payload_of xs)
payloads-IsSorted [] h = tt
payloads-IsSorted (x ∷ xs) h = (payloads-below x xs h.0, payloads-IsSorted xs h.1)

module _ (nfc : String → String) (nfc_idem : (s : String) → nfc (nfc s) ≡ nfc s) where
  entry_fixed :
      (x y : ManifestFileEntry)
      → normalize_payload_entry nfc x ≡ ok y
      → normalize_file_entry nfc y ≡ y
  unfolding normalize_payload_entry normalize_file_entry
  entry_fixed x y e =
      let (_, _, e₁) = >>=_inv (raise_if (x.path == "") _) _ e in
      subst (λ (r : ManifestFileEntry). normalize_file_entry nfc r ≡ r) (ok-injective e₁)
        (ap (λ p. record x { path = p }) (nfc_idem x.path))

  path_fixed :
      (o : Option String) → normal_path_of nfc (normal_path_of nfc o) ≡ normal_path_of nfc o
  path_fixed none = refl
  path_fixed (some p) = ap some (nfc_idem p)

  tombstone_fixed :
      (n : ℕ) (x y : TombstoneRecord)
      → normalize_payload_tombstone nfc n x ≡ ok y
      → normalize_tombstone nfc final y ≡ payload_of y
  unfolding normalize_payload_tombstone normalize_tombstone
  tombstone_fixed n x y e =
      let (_, _, e₁) = >>=_inv (raise_if (x.file_id == "") _) _ e in
      let (_, _, e₂) = >>=_inv (raise_if (is_blank x.last_known_path) _) _ e₁ in
      subst (λ (r : TombstoneRecord). normalize_tombstone nfc final r ≡ payload_of r)
        (ok-injective e₂)
        (ap
          (λ q. record {
            record_ = record (dated n x) { last_known_path = q };
            has_deleted_revision = true;
          })
          (path_fixed x.last_known_path))

module _ (nfc : String → String) (digest : CanonicalPayload → String) where
  -- Where to normalize a text twice is to normalize it once, the summary that the server stores in a
  -- manifest is the one that a device computes from that manifest.
  pub finalize-summary :
      (m f : ManifestRecord) (n : ℕ)
      → ((s : String) → nfc (nfc s) ≡ nfc s)
      → finalize_manifest_payload nfc digest m n ≡ ok f
      → f.summary_hash ≡ compute_manifest_summary_hash nfc digest f
  unfolding compute_manifest_summary_hash
  finalize-summary m f n nfc_idem e =
      let (files, stones, at_files, at_stones, same) = finalize_inv nfc digest m f n e in
      let sorted_files = sorted entry_leb files in
      let sorted_stones = sorted seq_leb stones in
      let files_same : map (normalize_file_entry nfc) sorted_files ≡ sorted_files =
        map_same (normalize_file_entry nfc) sorted_files (
          All-sorted entry_leb _ files (
            traverse-All (normalize_payload_entry nfc) (λ y. normalize_file_entry nfc y ≡ y)
              (entry_fixed nfc nfc_idem) m.files files at_files)) in
      let stones_same : map (normalize_tombstone nfc final) sorted_stones
          ≡ map payload_of sorted_stones =
        map_fixed (normalize_tombstone nfc final) payload_of sorted_stones (
          All-sorted seq_leb _ stones (
            traverse-All (normalize_payload_tombstone nfc n)
              (λ y. normalize_tombstone nfc final y ≡ payload_of y) (tombstone_fixed nfc nfc_idem n)
              m.tombstones stones at_stones)) in
      let files_in_order : sorted entry_leb sorted_files ≡ sorted_files =
        sorted_fixed entry_leb sorted_files
          (sorted-IsSorted entry_leb entry_total entry_trans files) in
      let stones_in_order : sorted payload_leb (map payload_of sorted_stones)
          ≡ map payload_of sorted_stones =
        sorted_fixed payload_leb (map payload_of sorted_stones) (
          payloads-IsSorted sorted_stones (
            sorted-IsSorted seq_leb (λ a b. seq_total (payload_of a) (payload_of b))
              (λ a b c. seq_trans (payload_of a) (payload_of b) (payload_of c)) stones)) in
      subst (λ (x : ManifestRecord). x.summary_hash ≡ compute_manifest_summary_hash nfc digest x)
        same
        (ap (λ l. digest (final_payload "v1" n l (map payload_of sorted_stones)))
            (sym (ap (sorted entry_leb) files_same ∙ files_in_order))
          ∙ ap
              (λ l. digest (
                final_payload "v1" n
                  (sorted entry_leb (map (normalize_file_entry nfc) sorted_files)) l))
              (sym (ap (sorted payload_leb) stones_same ∙ stones_in_order)))
