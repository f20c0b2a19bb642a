-- ===== src/Server/Retained.antt =====
-- sync_store.py: what the retention policy keeps of the versions of a file.
use mathlib.Core.Path.{subst}
use personal_knowledge_base.Base.{
  ◌≤◌, ltb, String, eq_iff, ◌≡◌, ◌⊎◌, ◌↔◌, refl, ap, sym, ◌∙◌, true, false, none, some, List, [],
  ◌∷◌, All, Has, filter, length, map, Bool-cases, arith, inl, inr, Apart, All-imp, ◌==◌, ◌<◌, ◌≢◌,
  nat_eq, Option-cases, All-Has,
}
use personal_knowledge_base.Base.Text.{str_leb}
use personal_knowledge_base.Base.Dict.{Dict, get, delete, get-delete, get-put_same}
use personal_knowledge_base.Base.Sort.{
  sorted, IsSorted, sorted-IsSorted, Has-sorted, sorted-Has, insert, All-insert, All-sorted,
}
use personal_knowledge_base.Server.Vault.{FileVersionRecord, FileVersions}
use personal_knowledge_base.Server.Versions.{
  version_leb, retain_loop, without_records, listed_records, effective_keep, version_id_of,
  apply_file_version_retention_policy,
}
use personal_knowledge_base.Server.Split.{
  version_total, version_trans, is_regular, same_id, same_id-swap, retain-Splits, retain-IsSorted,
  retain-Apart,
}

deleted-none :
    (records : Dict FileVersionRecord) (rs : List FileVersionRecord) (i : String)
    → get records i ≡ none
    → get (without_records records rs) i ≡ none
unfolding without_records
deleted-none records [] i h = h
deleted-none records (r ∷ rest) i h =
    deleted-none (delete records r.version_id) rest i
      (get-delete records r.version_id i ∙ ground (arith, h))

without-none :
    (records : Dict FileVersionRecord) (rs : List FileVersionRecord) (r : FileVersionRecord)
    → Has r rs
    → get (without_records records rs) r.version_id ≡ none
unfolding without_records
without-none records [] r h = absurd h
without-none records (x ∷ rest) r (inl e) =
    deleted-none (delete records x.version_id) rest r.version_id (
      get-delete records x.version_id r.version_id
      ∙ rw ((eq_iff x.version_id r.version_id).1 (ap version_id_of (sym e))) refl)
without-none records (x ∷ rest) r (inr later) =
    without-none (delete records x.version_id) rest r later

without-other :
    (records : Dict FileVersionRecord) (rs : List FileVersionRecord) (i : String)
    → ((r : FileVersionRecord) → Has r rs → (r.version_id == i) ≡ false)
    → get (without_records records rs) i ≡ get records i
unfolding without_records
without-other records [] i h = refl
without-other records (x ∷ rest) i h =
    without-other (delete records x.version_id) rest i (λ r later. h r (inr later))
    ∙ get-delete records x.version_id i
    ∙ rw (h x (inl refl)) refl

module _ (records : Dict FileVersionRecord)
    (keyed : (i : String) (r : FileVersionRecord) → get records i ≡ some r → r.version_id ≡ i) where
  listed-get :
      (ids : List String) (r : FileVersionRecord)
      → Has r (listed_records records ids)
      → get records r.version_id ≡ some r
  unfolding listed_records
  listed-get [] r h = absurd h
  listed-get (i ∷ ids) r h = elim (Option-cases (get records i)) [
    | inl missing ↦ listed-get ids r (rw (missing, listed_records) at h)
    | inr (x, has) ↦
        let cases : (r ≡ x) ⊎ Has r (listed_records records ids) = rw (has, listed_records) at h in
        elim cases [
          | inl e ↦ ap (get records) (ap version_id_of e ∙ keyed i x has) ∙ has ∙ ap some (sym e)
          | inr later ↦ listed-get ids r later
        ]
  ]

  listed-All :
      (i : String) (ids : List String)
      → All (λ j. (i == j) ≡ false) ids
      → All (λ r. (i == r.version_id) ≡ false) (listed_records records ids)
  unfolding listed_records
  listed-All i [] h = tt
  listed-All i (j ∷ ids) h = elim (Option-cases (get records j)) [
    | inl missing ↦ rw (missing, listed_records) (listed-All i ids h.1)
    | inr (x, has) ↦
        rw (has, listed_records) (ap (λ t. i == t) (keyed j x has) ∙ h.0, listed-All i ids h.1)
  ]

  listed-Apart :
      (ids : List String) → Apart (λ i j. i == j) ids → Apart same_id (listed_records records ids)
  unfolding listed_records
  listed-Apart [] h = tt
  listed-Apart (i ∷ ids) h = elim (Option-cases (get records i)) [
    | inl missing ↦ rw (missing, listed_records) (listed-Apart ids h.1)
    | inr (x, has) ↦
        rw (has, listed_records)
          (
            subst (λ t. All (λ r. (t == r.version_id) ≡ false) (listed_records records ids))
                (sym (keyed i x has)) (listed-All i ids h.0),
            listed-Apart ids h.1,
          )
  ]

insert-Apart :
    (x : FileVersionRecord) (ys : List FileVersionRecord)
    → All (λ y. same_id x y ≡ false) ys
    → Apart same_id ys
    → Apart same_id (insert version_leb x ys)
unfolding insert
insert-Apart x [] h a = (tt, tt)
insert-Apart x (y ∷ ys) h a = elim (Bool-cases (version_leb x y)) [
  | inl e ↦ rw e (h, a)
  | inr e ↦ rw e (
    All-insert version_leb (λ z. same_id y z ≡ false) x ys (same_id-swap x y h.0) a.0,
    insert-Apart x ys h.1 a.1,
  )
]

sorted-Apart :
    (xs : List FileVersionRecord) → Apart same_id xs → Apart same_id (sorted version_leb xs)
unfolding sorted
sorted-Apart [] h = tt
sorted-Apart (x ∷ xs) h =
    insert-Apart x (sorted version_leb xs)
      (All-sorted version_leb (λ y. same_id x y ≡ false) xs h.0) (sorted-Apart xs h.1)

-- The version of a later revision comes first, and of one revision the one with the smaller id.
abbrev pub Before : FileVersionRecord → FileVersionRecord → Type 0
Before a b =
    (b.revision < a.revision)
    ⊎ ((a.revision ≡ b.revision) × (str_leb a.version_id b.version_id ≡ true))

abbrev pub InOrder : List FileVersionRecord → Type 0
InOrder [] = Unit
InOrder (r ∷ rest) = All (Before r) rest × InOrder rest

leb-Before : (a b : FileVersionRecord) → version_leb a b ≡ true → Before a b
unfolding version_leb
leb-Before a b h = elim (Bool-cases (nat_eq a.revision b.revision)) [
  | inl e ↦ inr (ground (arith, e), rw e at h)
  | inr e ↦ inl (let later : ltb b.revision a.revision ≡ true = rw e at h in ground (arith, later))
]

IsSorted-InOrder : (rs : List FileVersionRecord) → IsSorted version_leb rs → InOrder rs
IsSorted-InOrder [] h = tt
IsSorted-InOrder (r ∷ rest) h = (
  All-imp (λ x. version_leb r x ≡ true) (Before r) (leb-Before r) rest h.0,
  IsSorted-InOrder rest h.1,
)

-- Where each version is stored under its own id, and a file lists no id twice: the policy keeps some of the
-- listed versions of the file, the later revisions first and by id within one, and their records stay;
-- it deletes the records of the others, and no other record. Where the policy keeps pinned versions,
-- those deleted are not pinned. Of the versions that are not pinned it keeps as many as the limit allows,
-- and if it deletes one, then it keeps exactly that many, none of an earlier revision than the deleted one.
pub retention-keeps_latest :
    (versions : FileVersions) (file_id : String) (ids : List String)
    → get versions.by_file_id file_id ≡ some ids
    → ((i : String) (r : FileVersionRecord) → get versions.records i ≡ some r → r.version_id ≡ i)
    → Apart (λ i j. i == j) ids
    → let keep_pinned = versions.retention_policy.keep_pinned in
      let limit = effective_keep versions.retention_policy.keep_latest in
      let after = apply_file_version_retention_policy versions file_id in
      (kept : List FileVersionRecord) × (dropped : List FileVersionRecord) × (get after.by_file_id
          file_id
        ≡ some (map version_id_of kept))
      × InOrder kept
      × ((r : FileVersionRecord)
          → Has r (listed_records versions.records ids) ↔ (Has r kept ⊎ Has r dropped))
      × ((r : FileVersionRecord) → Has r kept → get after.records r.version_id ≡ some r)
      × ((i : String)
          → ((r : FileVersionRecord) → Has r dropped → r.version_id ≢ i)
          → get after.records i ≡ get versions.records i)
      × ((r : FileVersionRecord)
          → Has r dropped
          → (get after.records r.version_id ≡ none)
            × (is_regular keep_pinned r ≡ true)
            × (length (filter (is_regular keep_pinned) kept) ≡ limit)
            × ((k : FileVersionRecord) → Has k kept → is_regular keep_pinned k ≡ true → Before k r))
      × (length (filter (is_regular keep_pinned) kept) ≤ limit)
unfolding apply_file_version_retention_policy
retention-keeps_latest versions file_id ids has keyed once =
    let keep_pinned = versions.retention_policy.keep_pinned in
    let limit = effective_keep versions.retention_policy.keep_latest in
    let unsorted = listed_records versions.records ids in
    let listed = sorted version_leb unsorted in
    let in_order = sorted-IsSorted version_leb version_total version_trans unsorted in
    let both = retain_loop keep_pinned limit 0 listed in
    let s = retain-Splits keep_pinned limit 0 listed in_order in
    let apart = sorted-Apart unsorted (listed-Apart versions.records keyed ids once) in
    (
      both.0,
      both.1,
      rw (has, apply_file_version_retention_policy)
          (get-put_same versions.by_file_id file_id (map version_id_of both.0)),
      IsSorted-InOrder both.0 (retain-IsSorted keep_pinned limit 0 listed in_order),
      λ r. (
        λ h. s.covers r (sorted-Has version_leb r unsorted h),
        λ h.
            Has-sorted version_leb r unsorted
              (elim h [ inl k ↦ s.from_kept r k | inr d ↦ s.from_dropped r d ]),
      ),
      λ r h.
          rw (has, apply_file_version_retention_policy)
            (without-other versions.records both.1 r.version_id
                (λ d hd. retain-Apart keep_pinned limit 0 listed in_order apart r d h hd)
              ∙ listed-get versions.records keyed ids r
                  (Has-sorted version_leb r unsorted (s.from_kept r h))),
      λ i others.
          rw (has, apply_file_version_retention_policy)
            (without-other versions.records both.1 i
              (λ d hd. ground (arith, eq_iff d.version_id i, others d hd))),
      λ r h. (
        rw (has, apply_file_version_retention_policy) (without-none versions.records both.1 r h),
        All-Has (λ x. is_regular keep_pinned x ≡ true) r both.1 s.regular h,
        ground (arith, s.limit, s.full r h),
        λ k hk reg. leb-Before k r (s.latest k r hk reg h),
      ),
      ground (arith, s.limit),
    )
