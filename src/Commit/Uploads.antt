-- ===== src/Commit/Uploads.antt =====
-- sync_commit.py: every blob that a commit lacks is in its upload plan.
use mathlib.Core.Path.{subst}
use personal_knowledge_base.Base.{
  String, ◌==◌, eq_iff, ◌≡◌, ◌⊎◌, ◌↔◌, refl, sym, ◌∙◌, Bool, true, false, not, ◌||◌, List, [], ◌∷◌,
  ◌++◌, filter, map, nat_eq, length, Has, Has-append_left, Has-append_right, Has-filter, any_of_Has,
  Has-of_any, Bool-cases, inl, inr, arith,
}
use personal_knowledge_base.Base.Index.{is_in, text_set, Has-text_set, text_set-Has}
use personal_knowledge_base.Base.Sort.{Has-sorted, sorted-Has}
use personal_knowledge_base.Base.Text.{str_leb}
use personal_knowledge_base.Base.Exec.{ok, >>=_inv, ok-injective, raise_if-eq-ok}
use personal_knowledge_base.Commit.Table.{CommitSnapshotTable}
use personal_knowledge_base.Commit.Network.{
  BlobCheckResult, sorted_set, blob_id_of, build_blob_check_request, refuse,
  resolve_blob_check_result,
}

pub is_in-Has : (s : String) (xs : List String) → is_in s xs ≡ true → Has s xs
is_in-Has s xs h =
    let (t, has, e) = Has-of_any (λ u. u == s) xs h in subst (λ u. Has u xs) ((eq_iff t s).0 e) has

pub Has-is_in : (s : String) (xs : List String) → Has s xs → is_in s xs ≡ true
Has-is_in s xs h = any_of_Has (λ u. u == s) s xs h ((eq_iff s s).1 refl)

refuse-none :
    (message : String) (p : String → Bool) (xs : List String)
    → refuse message (filter p xs) ≡ ok tt
    → (s : String) → Has s xs
    → p s ≡ false
refuse-none message p xs h s has = elim (Bool-cases (p s)) [
  | inr fine ↦ fine
  | inl bad ↦
      let empty : length (filter p xs) ≡ 0 =
        ground (arith, raise_if-eq-ok (not (nat_eq (length (filter p xs)) 0)) _ h) in
      absurd (some_length (filter p xs) s (Has-filter p s xs has bad) empty)
]
  where
    some_length : (ys : List String) (t : String) → Has t ys → length ys ≡ 0 → ⊥
    some_length [] t h e = h
    some_length (y ∷ ys) t h e = omega (arith, e)

pub sorted_set-Has : (s : String) (xs : List String) → Has s (sorted_set xs) ↔ Has s xs
sorted_set-Has s xs = (
  λ h. Has-text_set s xs (Has-sorted str_leb s (text_set xs) h),
  λ h. sorted-Has str_leb s (text_set xs) (text_set-Has s xs h),
)

-- If the device accepts what the server answered, then each blob of the commit is listed as existing or
-- as missing, none as both, and no other blob is listed.
pub blob_check-partitions :
    (table : CommitSnapshotTable) (existing missing : List String) (result : BlobCheckResult)
    → resolve_blob_check_result table existing missing ≡ ok result
    → (result.requested_blob_ids ≡ build_blob_check_request table)
      × ((i : String)
          → Has i (map blob_id_of table.entries)
            ↔ (Has i result.existing_blob_ids ⊎ Has i result.missing_blob_ids))
      × ((i : String) → Has i result.existing_blob_ids → Has i result.missing_blob_ids → ⊥)
unfolding resolve_blob_check_result build_blob_check_request
blob_check-partitions table existing missing result e =
    let requested = build_blob_check_request table in
    let (_, known, e₁) =
      >>=_inv (refuse _ (filter (λ i. not (is_in i requested)) (existing ++ missing))) _ e in
    let (_, apart, e₂) = >>=_inv (refuse _ (filter (λ i. is_in i missing) existing)) _ e₁ in
    let (_, covered, e₃) =
      >>=_inv (refuse _ (filter (λ i. not (is_in i existing || is_in i missing)) requested)) _ e₂ in
    let asked = λ (i : String). sorted_set-Has i (map blob_id_of table.entries) in
    let from_answer : (i : String)
        → Has i (existing ++ missing)
        → Has i (map blob_id_of table.entries) =
      λ i h. (asked i).0 (
        is_in-Has i requested (
          ground (
            arith,
            refuse-none _ (λ j. not (is_in j requested)) (existing ++ missing) known i h,
          ))) in
    subst
      (λ (r : BlobCheckResult).
        (r.requested_blob_ids ≡ requested)
        × ((i : String)
            → Has i (map blob_id_of table.entries)
              ↔ (Has i r.existing_blob_ids ⊎ Has i r.missing_blob_ids))
        × ((i : String) → Has i r.existing_blob_ids → Has i r.missing_blob_ids → ⊥))
      (ok-injective e₃)
      (
        refl,
        λ i. (
          λ h. elim (Bool-cases (is_in i existing)) [
            | inl yes_in ↦ inl ((sorted_set-Has i existing).1 (is_in-Has i existing yes_in))
            | inr not_in ↦ inr (
                (sorted_set-Has i missing).1 (
                  is_in-Has i missing (
                    ground (
                      arith,
                      not_in,
                      refuse-none _ (λ j. not (is_in j existing || is_in j missing)) requested
                          covered i ((asked i).1 h),
                    ))))
          ],
          λ h. elim h [
            | inl x ↦
                from_answer i (Has-append_left i existing missing ((sorted_set-Has i existing).0 x))
            | inr x ↦
                from_answer i (Has-append_right i existing missing ((sorted_set-Has i missing).0 x))
          ],
        ),
        λ i x y.
            let no =
              refuse-none _ (λ j. is_in j missing) existing apart i
                ((sorted_set-Has i existing).0 x) in
            let both = Has-is_in i missing ((sorted_set-Has i missing).0 y) in
            (let clash = sym both ∙ no in absurd (true_ne clash)),
      )
  where
    true_ne : true ≡ false → ⊥
    true_ne h = absurd (ground (arith, h))
