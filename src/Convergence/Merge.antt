-- ===== src/Convergence/Merge.antt =====
-- convergence.py: the merge of the local tombstones with the manifest's.
use personal_knowledge_base.Base.{
  ℕ, String, ◌==◌, eq_iff, ◌≡◌, refl, sym, ap, ◌∙◌, Bool, ◌||◌, List, [], ◌∷◌, ◌++◌, any, map,
  is_some, arith, All, inl, inr, Bool-cases,
}
use personal_knowledge_base.Base.Dict.{Dict, get, put, delete, get-put}
use personal_knowledge_base.Base.Sort.{insert, sorted}
use personal_knowledge_base.Models.{TombstoneRecord}
use personal_knowledge_base.Convergence.Defs.{stone_id, among, values, add_by_id}

-- What the merge keeps of a local record: which file it deletes, and where in the local sequence.
abbrev pub stone_key : TombstoneRecord → String × ℕ
stone_key r = (r.file_id, r.local_delete_seq)

pub among-map :
    (xs ys : List TombstoneRecord) (j : String)
    → map stone_id xs ≡ map stone_id ys
    → among xs j ≡ among ys j
among-map xs ys j e = among_ids xs ∙ ap (any (λ i. i == j)) e ∙ sym (among_ids ys)
  where
    among_ids : (zs : List TombstoneRecord) → among zs j ≡ any (λ i. i == j) (map stone_id zs)
    among_ids = elim [ [] ↦ refl | z ∷ (zs → ih) ↦ ap (λ b. z.file_id == j || b) ih ]

pub among-append :
    (xs ys : List TombstoneRecord) (j : String) → among (xs ++ ys) j ≡ (among xs j || among ys j)
among-append [] ys j = refl
among-append (x ∷ xs) ys j = ground (arith, among-append xs ys j)

pub among-insert :
    (le : TombstoneRecord → TombstoneRecord → Bool) (x : TombstoneRecord)
    (xs : List TombstoneRecord) (j : String)
    → among (insert le x xs) j ≡ (x.file_id == j || among xs j)
unfolding insert
among-insert le x [] j = refl
among-insert le x (y ∷ ys) j = ground (arith, among-insert le x ys j)

pub among-sorted :
    (le : TombstoneRecord → TombstoneRecord → Bool) (xs : List TombstoneRecord) (j : String)
    → among (sorted le xs) j ≡ among xs j
unfolding sorted
among-sorted le [] j = refl
among-sorted le (x ∷ xs) j =
    among-insert le x (sorted le xs) j ∙ ap (λ b. x.file_id == j || b) (among-sorted le xs j)

-- Each value stands under its own `file_id`.
abbrev pub IsKeyed : Dict TombstoneRecord → Type 0
IsKeyed d = All (λ entry. entry.0 ≡ entry.1.file_id) d

put-IsKeyed :
    (d : Dict TombstoneRecord) (r : TombstoneRecord) → IsKeyed d → IsKeyed (put d r.file_id r)
unfolding put
put-IsKeyed [] r h = (refl, tt)
put-IsKeyed ((k, v) ∷ d) r h = elim (Bool-cases (k == r.file_id)) [
  | inl e ↦ rw e ((eq_iff k r.file_id).0 e, h.1)
  | inr e ↦ rw e (h.0, put-IsKeyed d r h.1)
]

pub delete-IsKeyed : (d : Dict TombstoneRecord) (k : String) → IsKeyed d → IsKeyed (delete d k)
unfolding delete
delete-IsKeyed [] k h = tt
delete-IsKeyed ((j, v) ∷ d) k h = elim (Bool-cases (j == k)) [
  | inl e ↦ rw e (delete-IsKeyed d k h.1)
  | inr e ↦ rw e (h.0, delete-IsKeyed d k h.1)
]

pub add_by_id-IsKeyed :
    (d : Dict TombstoneRecord) (rs : List TombstoneRecord)
    → IsKeyed d
    → IsKeyed (add_by_id stone_id d rs)
unfolding add_by_id
add_by_id-IsKeyed d [] h = h
add_by_id-IsKeyed d (r ∷ rs) h = add_by_id-IsKeyed (put d r.file_id r) rs (put-IsKeyed d r h)

pub among-values :
    (d : Dict TombstoneRecord) (j : String) → IsKeyed d → among (values d) j ≡ is_some (get d j)
unfolding get
among-values [] j h = refl
among-values ((k, v) ∷ d) j h = rw (← h.0) (ground (arith, among-values d j h.1))

pub get-add_by_id :
    (d : Dict TombstoneRecord) (rs : List TombstoneRecord) (j : String)
    → is_some (get (add_by_id stone_id d rs) j) ≡ (among rs j || is_some (get d j))
unfolding add_by_id
get-add_by_id d [] j = refl
get-add_by_id d (r ∷ rs) j =
    ground (arith, get-add_by_id (put d r.file_id r) rs j, get-put d r.file_id j r)
