-- ===== src/Convergence/Tombstones.antt =====
-- convergence.py: which deletions a merge and a convergence keep.
use mathlib.Core.Path.{subst}
use mathlib.Core.List.{map-append}
use personal_knowledge_base.Base.{
  ℕ, String, ◌==◌, eq_iff, ◌≡◌, refl, sym, ap, ◌∙◌, false, not, ◌&&◌, ◌||◌, List, [], ◌∷◌, ◌++◌,
  any, map, is_some, arith, All, Has, Has-append, any_of_Has, inl, inr, Option-cases,
}
use personal_knowledge_base.Base.Dict.{Dict, get, delete, get-delete}
use personal_knowledge_base.Base.Sort.{sorted}
use personal_knowledge_base.Base.Exec.{
  ok, >>=_inv, ok-injective, traverse, traverse-map, traverse-All,
}
use personal_knowledge_base.Models.{TombstoneRecord, new_tombstone_record}
use personal_knowledge_base.Convergence.Defs.{
  stone_id, among, values, stone_id_leb, add_by_id, merge_one, merge_loop, adopt,
  merge_manifest_tombstones,
}
use personal_knowledge_base.Convergence.Merge.{
  stone_key, among-map, among-append, among-sorted, among-values, get-add_by_id, add_by_id-IsKeyed,
  IsKeyed, delete-IsKeyed,
}

merge_one-key :
    (d : Dict TombstoneRecord) (r y : TombstoneRecord)
    → merge_one d r ≡ ok y
    → stone_key y ≡ stone_key r
unfolding merge_one new_tombstone_record
merge_one-key d r y e = ground arith

adopt-zero : (r y : TombstoneRecord) → adopt r ≡ ok y → (y.local_delete_seq ≡ 0)
unfolding adopt new_tombstone_record
adopt-zero r y e = ground arith

pub adopt-id : (r y : TombstoneRecord) → adopt r ≡ ok y → stone_id y ≡ stone_id r
unfolding adopt new_tombstone_record
adopt-id r y e = ground arith

-- The loop keeps the keys of the local records, and takes their entries out of the dict.
merge_loop_keys :
    (xs : List TombstoneRecord) (d : Dict TombstoneRecord)
    (l : List TombstoneRecord × Dict TombstoneRecord)
    → merge_loop xs d ≡ ok l
    → (map stone_key l.0 ≡ map stone_key xs)
      × ((j : String) → is_some (get l.1 j) ≡ (not (among xs j) && is_some (get d j)))
      × (IsKeyed d → IsKeyed l.1)
unfolding merge_loop
merge_loop_keys [] d l e = rw (← (ok-injective e)) (refl, (λ j. refl), λ h. h)
merge_loop_keys (x ∷ xs) d l e =
    let (y, first, after) = >>=_inv (merge_one d x) _ e in
    let (rest, more, end) = >>=_inv (merge_loop xs (delete d x.file_id)) _ after in
    let (keys, left, keyed) = merge_loop_keys xs (delete d x.file_id) rest more in
    rw (← (ok-injective end)) (
      cc (keys, merge_one-key d x y first),
      (λ j. ground (arith, left j, get-delete d x.file_id j)),
      (λ h. keyed (delete-IsKeyed d x.file_id h)),
    )

merge_one-local :
    (d : Dict TombstoneRecord) (x y : TombstoneRecord)
    → merge_one d x ≡ ok y
    → is_some (get d y.file_id) ≡ false
    → y ≡ x
unfolding merge_one new_tombstone_record
merge_one-local d x y e u = elim (Option-cases (get d x.file_id)) [
  | inl missing ↦ ground (arith, missing)
  | inr (remote, found) ↦
      let same : y.file_id ≡ x.file_id = ap (λ (k : String × ℕ). k.0) (merge_one-key d x y e) in
      cc (u, ap is_some (ap (get d) same ∙ found))
]

-- A merged record whose `file_id` the dict does not know is a local record, unchanged.
pub merge_loop_local :
    (xs : List TombstoneRecord) (d : Dict TombstoneRecord)
    (l : List TombstoneRecord × Dict TombstoneRecord)
    → merge_loop xs d ≡ ok l
    → (r : TombstoneRecord) → is_some (get d r.file_id) ≡ false
    → Has r l.0
    → Has r xs
unfolding merge_loop
merge_loop_local [] d l e r u h = subst (λ p. Has r p.0) (sym (ok-injective e)) h
merge_loop_local (x ∷ xs) d l e r u h =
    let (y, first, after) = >>=_inv (merge_one d x) _ e in
    let (rest, more, end) = >>=_inv (merge_loop xs (delete d x.file_id)) _ after in
    let h' : Has r (y ∷ rest.0) = subst (λ p. Has r p.0) (sym (ok-injective end)) h in
    go y first rest.0
      (merge_loop_local xs (delete d x.file_id) rest more r
        (ground (arith, get-delete d x.file_id r.file_id)))
      h'
  where
    go :
        (y : TombstoneRecord)
        → merge_one d x ≡ ok y
        → (ys : List TombstoneRecord) → (Has r ys → Has r xs)
        → Has r (y ∷ ys)
        → Has r (x ∷ xs)
    go y first ys ih (inr m) = inr (ih m)
    go y first ys ih (inl q) = inl (
        q
        ∙ merge_one-local d x y first
            (subst (λ (z : TombstoneRecord). is_some (get d z.file_id) ≡ false) q u))

pub get-manifest :
    (manifest : List TombstoneRecord) (j : String)
    → is_some (get (add_by_id stone_id [] manifest) j) ≡ among manifest j
unfolding get
get-manifest manifest j = ground (arith, get-add_by_id [] manifest j)

among_keys :
    (xs : List TombstoneRecord) (j : String)
    → among xs j ≡ any (λ (k : String × ℕ). k.0 == j) (map stone_key xs)
among_keys [] j = refl
among_keys (x ∷ xs) j = ap (λ b. x.file_id == j || b) (among_keys xs j)

-- What the dict holds after the loop, by `file_id`, once it is adopted.
among-adopted :
    (local manifest adopted : List TombstoneRecord)
    (looped : List TombstoneRecord × Dict TombstoneRecord) (j : String)
    → merge_loop local (add_by_id stone_id [] manifest) ≡ ok looped
    → traverse adopt (sorted stone_id_leb (values looped.1)) ≡ ok adopted
    → among adopted j ≡ (not (among local j) && among manifest j)
among-adopted local manifest adopted looped j loop made =
    let (_, left, keyed) = merge_loop_keys local (add_by_id stone_id [] manifest) looped loop in
    among-map adopted (sorted stone_id_leb (values looped.1)) j
      (traverse-map adopt stone_id stone_id adopt-id _ adopted made)
    ∙ among-sorted stone_id_leb (values looped.1) j
    ∙ among-values looped.1 j (keyed (add_by_id-IsKeyed [] manifest tt))
    ∙ left j
    ∙ ap (λ b. not (among local j) && b) (get-manifest manifest j)

-- A merged record whose `file_id` the manifest does not list is a local record.
pub merge-local :
    (local manifest merged_records : List TombstoneRecord) (r : TombstoneRecord)
    → merge_manifest_tombstones local manifest ≡ ok merged_records
    → among manifest r.file_id ≡ false
    → Has r merged_records
    → Has r local
unfolding merge_manifest_tombstones
merge-local local manifest ms r e unlisted h =
    let d = add_by_id stone_id [] manifest in
    let (looped, loop, after) = >>=_inv (merge_loop local d) _ e in
    let (adopted, made, end) =
      >>=_inv (traverse adopt (sorted stone_id_leb (values looped.1))) _ after in
    elim (Has-append r looped.0 adopted (subst (Has r) (sym (ok-injective end)) h)) [
      | inl m ↦
          merge_loop_local local d looped loop r (get-manifest manifest r.file_id ∙ unlisted) m
      | inr m ↦
          let there =
            any_of_Has (λ s. s.file_id == r.file_id) r adopted m
              ((eq_iff r.file_id r.file_id).1 refl) in
          absurd (
            ground (
              arith,
              there,
              unlisted,
              among-adopted local manifest adopted looped r.file_id loop made,
            ))
    ]

-- A merge that succeeds: first the local records, in order, each with its `file_id` and its place in
-- the delete sequence; then records at place 0 whose `file_id` is not local.
pub merge-order :
    (local manifest merged_records : List TombstoneRecord)
    → merge_manifest_tombstones local manifest ≡ ok merged_records
    → (adopted : List TombstoneRecord) × (map stone_key merged_records
        ≡ map stone_key local ++ map stone_key adopted)
      × All (λ r. r.local_delete_seq ≡ 0) adopted
      × ((j : String) → among adopted j ≡ (not (among local j) && among manifest j))
unfolding merge_manifest_tombstones
merge-order local manifest ms e =
    let d = add_by_id stone_id [] manifest in
    let (looped, loop, after) = >>=_inv (merge_loop local d) _ e in
    let rest = sorted stone_id_leb (values looped.1) in
    let (adopted, made, end) = >>=_inv (traverse adopt rest) _ after in
    let (keys, _, _) = merge_loop_keys local d looped loop in
    (
      adopted,
      ap (map stone_key) (sym (ok-injective end))
          ∙ map-append stone_key looped.0 adopted
          ∙ ap (λ k. k ++ map stone_key adopted) keys,
      traverse-All adopt (λ r. r.local_delete_seq ≡ 0) adopt-zero rest adopted made,
      λ j. among-adopted local manifest adopted looped j loop made,
    )

-- A merge that succeeds knows a deletion exactly if one of the two sides does.
pub among-merge :
    (local manifest merged_records : List TombstoneRecord) (j : String)
    → merge_manifest_tombstones local manifest ≡ ok merged_records
    → among merged_records j ≡ (among local j || among manifest j)
among-merge local manifest ms j e =
    let (adopted, keys, _, known) = merge-order local manifest ms e in
    among_keys ms j
    ∙ ap (any (λ k. k.0 == j)) (keys ∙ sym (map-append stone_key local adopted))
    ∙ sym (among_keys (local ++ adopted) j)
    ∙ among-append local adopted j
    ∙ ground (arith, known j)
