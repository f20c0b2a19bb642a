-- ===== src/Commit/Exact.antt =====
-- sync_commit.py and sync_apply.py: which commits a confirmation takes for the journal's.
use mathlib.Core.Path.{subst}
use personal_knowledge_base.Base.{
  ℕ, ◌+◌, ◌≤◌, ◌<◌, String, ◌==◌, eq_iff, ◌≡◌, ◌≢◌, refl, sym, false, Option, none, some, List, [],
  ◌∷◌, arith, any, ltb, All, All-Has, Has, ◌⊎◌, inl, inr, Bool-cases,
}
use personal_knowledge_base.Base.Exec.{
  ok, raise_if, ok-injective, >>=_inv, raise_if-eq-ok, value_error,
}
use personal_knowledge_base.Models.{CommitIntentJournalRecord}
use personal_knowledge_base.Commit.Confirmation.{
  RevisionMetadata, ConfirmationMode, head_match, miss, scan_range, SubmittedConfirmationPlan,
  outside, plan_submitted_confirmation, find_matching_revision_metadata,
  resolve_submitted_confirmation, check_window, validate_scan_revision_metadata,
}
use personal_knowledge_base.Commit.Recover.{matched_at}

abbrev pub plan_of :
    ConfirmationMode → ℕ → Option ℕ → Option ℕ → Option ℕ → SubmittedConfirmationPlan
plan_of mode head matched from to = record {
  mode = mode;
  observed_head_revision = head;
  matched_revision = matched;
  scan_from_revision = from;
  scan_to_revision = to;
}

find-Has :
    (revisions : List RevisionMetadata) (commit_intent_id : String) (r : RevisionMetadata)
    → find_matching_revision_metadata revisions commit_intent_id ≡ some r
    → Has r revisions × (r.commit_intent_id ≡ commit_intent_id)
unfolding find_matching_revision_metadata
find-Has [] i r e = absurd cc
find-Has (x ∷ xs) i r e = elim (Bool-cases (x.commit_intent_id == i)) [
  | inl q ↦
      let same : x ≡ r = let e' : some x ≡ some r = rw q at e in cc in
      (
        inl (sym same),
        subst (λ (y : RevisionMetadata). y.commit_intent_id ≡ i) same
            ((eq_iff x.commit_intent_id i).0 q),
      )
  | inr q ↦ let (h, k) = find-Has xs i r (rw q at e) in (inr h, k)
]

find-none :
    (revisions : List RevisionMetadata) (commit_intent_id : String)
    → find_matching_revision_metadata revisions commit_intent_id ≡ none
    → All (λ r. (r.commit_intent_id == commit_intent_id) ≡ false) revisions
unfolding find_matching_revision_metadata
find-none [] i e = tt
find-none (x ∷ xs) i e = elim (Bool-cases (x.commit_intent_id == i)) [
  | inl q ↦ absurd (let e' : some x ≡ none = rw q at e in cc)
  | inr q ↦ (q, find-none xs i (rw q at e))
]

none_outside :
    (from to : ℕ) (revisions : List RevisionMetadata)
    → any (outside from to) revisions ≡ false
    → All (λ r. (from ≤ r.revision) × (r.revision ≤ to)) revisions
none_outside from to [] h = tt
none_outside from to (r ∷ rs) h = (ground arith, none_outside from to rs (ground arith))

module _ (journal : CommitIntentJournalRecord) (head : ℕ) (head_id : String)
    (plan : SubmittedConfirmationPlan) where
  -- The three plans, and when each is made.
  plan_cases :
      plan_submitted_confirmation journal head head_id ≡ ok plan
      → (journal.base_revision ≤ head)
        × (((head_id ≡ journal.commit_intent_id)
              × (plan_of head_match head (some head) none none ≡ plan))
            ⊎ (((head_id == journal.commit_intent_id) ≡ false)
                × (((head ≡ journal.base_revision) × (plan_of miss head none none none ≡ plan))
                    ⊎ (plan_of scan_range head none (some (journal.base_revision + 1)) (some head)
                        ≡ plan))))
  unfolding plan_submitted_confirmation
  plan_cases e =
      let (_, not_older, e₁) =
        >>=_inv
          (raise_if (ltb head journal.base_revision)
            (value_error "observed_head_revision cannot be older than journal.base_revision" []))
          _ e in
      let new : ltb head journal.base_revision ≡ false =
        raise_if-eq-ok (ltb head journal.base_revision) _ not_older in
      elim (Bool-cases (head_id == journal.commit_intent_id)) [
        | inl q ↦
            let e₂ : ok (plan_of head_match head (some head) none none) ≡ ok plan = rw q at e₁ in
            (ground arith, inl ((eq_iff head_id journal.commit_intent_id).0 q, ok-injective e₂))
        | inr q ↦ elim (Bool-cases (ltb head (journal.base_revision + 1))) [
          | inl m ↦
              let e₂ : ok (plan_of miss head none none none) ≡ ok plan = rw m at (rw q at e₁) in
              (ground arith, inr (q, inl (ground arith, ok-injective e₂)))
          | inr m ↦
              let scan =
                plan_of scan_range head none (some (journal.base_revision + 1)) (some head) in
              let e₂ : ok scan ≡ ok plan = rw m at (rw q at e₁) in
              (ground arith, inr (q, inr (ok-injective e₂)))
        ]
      ]

-- The revision that is found, from a plan.
abbrev pub found_at :
    SubmittedConfirmationPlan → CommitIntentJournalRecord → List RevisionMetadata → Option ℕ
found_at plan journal revisions =
    matched_at (resolve_submitted_confirmation plan journal.commit_intent_id revisions)

module _ (journal : CommitIntentJournalRecord) (head : ℕ) (head_id : String)
    (revisions : List RevisionMetadata) where
  scanned : SubmittedConfirmationPlan
  scanned = plan_of scan_range head none (some (journal.base_revision + 1)) (some head)

  found_by_scan :
      (n : ℕ)
      → found_at scanned journal revisions ≡ some n
      → (r : RevisionMetadata) × Has r revisions
        × (r.commit_intent_id ≡ journal.commit_intent_id)
        × (r.revision ≡ n)
  unfolding scanned matched_at resolve_submitted_confirmation
  found_by_scan n e = go (find_matching_revision_metadata revisions journal.commit_intent_id) refl e
    where
      go :
          (found : Option RevisionMetadata)
          → find_matching_revision_metadata revisions journal.commit_intent_id ≡ found
          → matched_at (record { plan = scanned; matched_metadata = found }) ≡ some n
          → (r : RevisionMetadata) × Has r revisions
            × (r.commit_intent_id ≡ journal.commit_intent_id)
            × (r.revision ≡ n)
      go (some r) is e =
          let (h, k) = find-Has revisions journal.commit_intent_id r is in (r, h, k, cc)
      go none is e = absurd cc

  missed_by_scan :
      found_at scanned journal revisions ≡ none
      → find_matching_revision_metadata revisions journal.commit_intent_id ≡ none
  unfolding scanned matched_at resolve_submitted_confirmation
  missed_by_scan e = go (find_matching_revision_metadata revisions journal.commit_intent_id) refl e
    where
      go :
          (found : Option RevisionMetadata)
          → find_matching_revision_metadata revisions journal.commit_intent_id ≡ found
          → matched_at (record { plan = scanned; matched_metadata = found }) ≡ none
          → find_matching_revision_metadata revisions journal.commit_intent_id ≡ none
      go (some r) is e = absurd (let e' : some r.revision ≡ none = e in cc)
      go none is e = is

  scan_window :
      validate_scan_revision_metadata scanned revisions ≡ ok tt
      → All (λ r. (journal.base_revision + 1 ≤ r.revision) × (r.revision ≤ head)) revisions
  unfolding scanned validate_scan_revision_metadata check_window
  scan_window e =
      none_outside (journal.base_revision + 1) head revisions
        (raise_if-eq-ok (any (outside (journal.base_revision + 1) head) revisions) _ e)

  -- If a confirmation finds the commit at a revision, that revision is the head, which carries the
  -- journal's `commit_intent_id`, or it is after the journal's base and up to the head, and the server
  -- listed a revision there with that `commit_intent_id`.
  pub confirmation_sound :
      (plan : SubmittedConfirmationPlan) (n : ℕ)
      → plan_submitted_confirmation journal head head_id ≡ ok plan
      → validate_scan_revision_metadata plan revisions ≡ ok tt
      → found_at plan journal revisions ≡ some n
      → ((head_id ≡ journal.commit_intent_id) × (n ≡ head))
        ⊎ ((journal.base_revision < n)
            × (n ≤ head)
            × ((r : RevisionMetadata) × Has r revisions
                × (r.commit_intent_id ≡ journal.commit_intent_id)
                × (r.revision ≡ n)))
  unfolding scanned matched_at resolve_submitted_confirmation
  confirmation_sound plan n made valid e = elim (plan_cases journal head head_id plan made).1 [
    | inl at_head ↦ inl (at_head.0, by_head plan at_head.1 e)
    | inr not_head ↦ elim not_head.1 [
      | inl missed ↦ absurd (by_miss plan missed.1 e)
      | inr is ↦
          let (r, listed, same, at_n) =
            found_by_scan n (subst (λ p. found_at p journal revisions ≡ some n) (sym is) e) in
          let (above, below) =
            All-Has _ r revisions
              (scan_window
                (subst (λ p. validate_scan_revision_metadata p revisions ≡ ok tt) (sym is) valid))
              listed in
          inr (omega arith, omega arith, (r, listed, same, at_n))
    ]
  ]
    where
      by_head :
          (plan : SubmittedConfirmationPlan)
          → plan_of head_match head (some head) none none ≡ plan
          → found_at plan journal revisions ≡ some n
          → n ≡ head
      by_head plan is e =
          let e' : some head ≡ some n =
            subst (λ p. found_at p journal revisions ≡ some n) (sym is) e in
          cc

      by_miss :
          (plan : SubmittedConfirmationPlan)
          → plan_of miss head none none none ≡ plan
          → found_at plan journal revisions ≢ some n
      by_miss plan is e =
          let e' : none ≡ some n = subst (λ p. found_at p journal revisions ≡ some n) (sym is) e in
          cc

  -- If a confirmation does not find the commit, the head does not carry its `commit_intent_id`, and the
  -- server has no revision after the journal's base, or listed none with that `commit_intent_id`.
  pub confirmation_complete :
      (plan : SubmittedConfirmationPlan)
      → plan_submitted_confirmation journal head head_id ≡ ok plan
      → found_at plan journal revisions ≡ none
      → ((head_id == journal.commit_intent_id) ≡ false)
        × ((head ≡ journal.base_revision)
            ⊎ All (λ r. (r.commit_intent_id == journal.commit_intent_id) ≡ false) revisions)
  unfolding scanned matched_at resolve_submitted_confirmation
  confirmation_complete plan made e = elim (plan_cases journal head head_id plan made).1 [
    | inl at_head ↦ absurd (by_head plan at_head.1 e)
    | inr not_head ↦ elim not_head.1 [
      | inl missed ↦ (not_head.0, inl missed.0)
      | inr is ↦ (
        not_head.0,
        inr (
            find-none revisions journal.commit_intent_id
              (missed_by_scan (subst (λ p. found_at p journal revisions ≡ none) (sym is) e))),
      )
    ]
  ]
    where
      by_head :
          (plan : SubmittedConfirmationPlan)
          → plan_of head_match head (some head) none none ≡ plan
          → found_at plan journal revisions ≢ none
      by_head plan is e =
          let e' : some head ≡ none = subst (λ p. found_at p journal revisions ≡ none) (sym is) e in
          cc
