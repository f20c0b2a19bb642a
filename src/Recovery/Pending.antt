-- ===== src/Recovery/Pending.antt =====
-- recovery.py: the list of revisions still to be acknowledged.
use mathlib.Core.Path.{subst}
use personal_knowledge_base.Base.{
  ℕ, String, ◌≡◌, ◌<◌, sym, ◌∙◌, true, false, List, [], ◌∷◌, ◌++◌, any, nat_eq, leb, arith, All,
  Apart, Has, Has-append, Has-append_left, Has-append_right, ◌⊎◌, inl, inr, ◌↔◌, Bool-cases,
  All-of_any, All-of_Has, All-Has, Has-of_any,
}
use personal_knowledge_base.Base.Sort.{
  sorted, Has-sorted, sorted-Has, All-sorted, insert, All-insert,
}
use personal_knowledge_base.Base.Exec.{ok}
use personal_knowledge_base.Models.{VaultStateRecord, new_vault_state_record}
use personal_knowledge_base.Recovery.{
  unique, sorted_unique_revisions, apply_manifest_reconciled_state,
}

-- Each revision is below all that follow it.
abbrev pub IsAscending : List ℕ → Type 0
IsAscending [] = Unit
IsAscending (n ∷ rest) = All (λ m. n < m) rest × IsAscending rest

nat_eq_iff : (n m : ℕ) → (nat_eq n m ≡ true) ↔ (n ≡ m)
nat_eq_iff n m = ground arith

All-above : (n m : ℕ) (xs : List ℕ) → n < m → All (λ k. m < k) xs → All (λ k. n < k) xs
All-above n m [] lt h = tt
All-above n m (k ∷ xs) lt h = (omega arith, All-above n m xs lt h.1)

unique-Has : (n : ℕ) (xs : List ℕ) → Has n xs → Has n (unique xs)
unfolding unique
unique-Has n [] h = h
unique-Has n (x ∷ xs) (inr h) = elim (Bool-cases (any (nat_eq x) xs)) [
  | inl e ↦ rw e (unique-Has n xs h)
  | inr e ↦ rw e (inr (unique-Has n xs h))
]
unique-Has n (x ∷ xs) (inl q) = elim (Bool-cases (any (nat_eq x) xs)) [
  | inl e ↦
      let (m, there, same) = Has-of_any (nat_eq x) xs e in
      let n_is_m : m ≡ n = sym (q ∙ (nat_eq_iff x m).0 same) in
      rw e (unique-Has n xs (subst (λ k. Has k xs) n_is_m there))
  | inr e ↦ rw e (inl q)
]

Has-unique : (n : ℕ) (xs : List ℕ) → Has n (unique xs) → Has n xs
unfolding unique
Has-unique n [] h = h
Has-unique n (x ∷ xs) h = elim (Bool-cases (any (nat_eq x) xs)) [
  | inl e ↦ inr (Has-unique n xs (rw e at h))
  | inr e ↦ elim (let h' : (n ≡ x) ⊎ Has n (unique xs) = rw e at h in h') [
    | inl q ↦ inl q
    | inr m ↦ inr (Has-unique n xs m)
  ]
]

-- No element stands twice.
unique-Apart : (xs : List ℕ) → Apart nat_eq (unique xs)
unfolding unique
unique-Apart [] = tt
unique-Apart (x ∷ xs) = elim (Bool-cases (any (nat_eq x) xs)) [
  | inl e ↦ rw e (unique-Apart xs)
  | inr e ↦ rw e (
    All-of_Has _ (unique xs)
        (λ m h. All-Has _ m xs (All-of_any (nat_eq x) xs e) (Has-unique m xs h)),
    unique-Apart xs,
  )
]

insert-IsAscending :
    (n : ℕ) (xs : List ℕ)
    → All (λ m. nat_eq n m ≡ false) xs
    → IsAscending xs
    → IsAscending (insert leb n xs)
unfolding insert
insert-IsAscending n [] a h = (tt, tt)
insert-IsAscending n (m ∷ xs) a h = elim (Bool-cases (leb n m)) [
  | inl e ↦ rw e (((ground (arith, a.0)), All-above n m xs (ground (arith, a.0)) h.0), h)
  | inr e ↦
      rw e (All-insert leb (λ k. m < k) n xs (ground arith) h.0, insert-IsAscending n xs a.1 h.1)
]

sorted-IsAscending : (xs : List ℕ) → Apart nat_eq xs → IsAscending (sorted leb xs)
unfolding sorted
sorted-IsAscending [] h = tt
sorted-IsAscending (x ∷ xs) h =
    insert-IsAscending x (sorted leb xs) (All-sorted leb (λ m. nat_eq x m ≡ false) xs h.0)
      (sorted-IsAscending xs h.1)

-- After a reconciliation the revisions to acknowledge are ascending, with no repetition: those from
-- before, and the target.
pub pending_ack-reconciled :
    (s : VaultStateRecord) {t : VaultStateRecord} (target : ℕ) (summary : String)
    → apply_manifest_reconciled_state s target summary ≡ ok t
    → IsAscending t.pending_ack_to_server
      × ((n : ℕ) → Has n t.pending_ack_to_server ↔ (Has n s.pending_ack_to_server ⊎ (n ≡ target)))
unfolding apply_manifest_reconciled_state
pending_ack-reconciled s {t} target summary e =
    rw shape (sorted-IsAscending (unique before) (unique-Apart before), λ n. (back n, forth n))
  where
    before : List ℕ
    before = s.pending_ack_to_server ++ target ∷ []

    shape : t.pending_ack_to_server ≡ sorted leb (unique before)
    shape = unfold new_vault_state_record sorted_unique_revisions in ground arith

    back :
        (n : ℕ) → Has n (sorted leb (unique before)) → Has n s.pending_ack_to_server ⊎ (n ≡ target)
    back n h =
        elim (Has-append n s.pending_ack_to_server (target ∷ [])
          (Has-unique n before (Has-sorted leb n (unique before) h))) [
            | inl m ↦ inl m
            | inr (inl q) ↦ inr q
            | inr (inr m) ↦ absurd m
          ]

    forth :
        (n : ℕ) → Has n s.pending_ack_to_server ⊎ (n ≡ target) → Has n (sorted leb (unique before))
    forth n (inl m) =
        sorted-Has leb n (unique before)
          (unique-Has n before (Has-append_left n s.pending_ack_to_server (target ∷ []) m))
    forth n (inr q) =
        sorted-Has leb n (unique before)
          (unique-Has n before (Has-append_right n s.pending_ack_to_server (target ∷ []) (inl q)))
