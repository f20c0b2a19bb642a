-- ===== src/Server/Split.antt =====
-- sync_store.py: how the loop of the retention policy splits the versions of a file.
use mathlib.Core.Path.{subst}
use personal_knowledge_base.Base.{
  ℕ, suc, ◌+◌, ◌≤◌, ltb, max, eq_iff, ◌≡◌, ◌⊎◌, refl, ap, sym, ◌∙◌, Bool, true, false, not, ◌&&◌,
  List, [], ◌∷◌, All, Has, filter, length, Bool-cases, arith, inl, inr, Apart, All-of_Has, ◌==◌,
  All-Has,
}
use personal_knowledge_base.Base.Text.{str_leb_total, str_leb_trans}
use personal_knowledge_base.Base.Sort.{IsSorted}
use personal_knowledge_base.Server.Vault.{FileVersionRecord}
use personal_knowledge_base.Server.Versions.{version_leb, retain_loop}

pub version_total : (a b : FileVersionRecord) → version_leb a b ≡ false → version_leb b a ≡ true
unfolding version_leb
version_total a b h = ground (arith, str_leb_total a.version_id b.version_id)

pub version_trans :
    (a b c : FileVersionRecord)
    → version_leb a b ≡ true
    → version_leb b c ≡ true
    → version_leb a c ≡ true
unfolding version_leb
version_trans a b c h k = ground (arith, str_leb_trans a.version_id b.version_id c.version_id)

-- A version that the limit counts.
abbrev pub is_regular : Bool → FileVersionRecord → Bool
is_regular keep_pinned r = not (keep_pinned && r.is_pinned)

length-filter_Has :
    (p : FileVersionRecord → Bool) (a : FileVersionRecord) (xs : List FileVersionRecord)
    → Has a xs
    → p a ≡ true
    → 1 ≤ length (filter p xs)
length-filter_Has p a [] h e = absurd h
length-filter_Has p a (x ∷ xs) h e = elim (Bool-cases (p x)) [
  | inl passes ↦ rw passes (omega arith)
  | inr fails ↦ elim h [
    | inl same ↦ absurd (let clash = sym e ∙ ap p same ∙ fails in cc)
    | inr later ↦ rw fails (length-filter_Has p a xs later e)
  ]
]

-- How the loop splits a list: what is dropped is not pinned, and comes only after the limit is reached
-- and after every version that counts.
pub record Splits (keep_pinned : Bool) (keep_latest count : ℕ)
    (rs kept dropped : List FileVersionRecord) : Type 0 where
  pub covers : (r : FileVersionRecord) → Has r rs → Has r kept ⊎ Has r dropped
  pub from_kept : (r : FileVersionRecord) → Has r kept → Has r rs
  pub from_dropped : (r : FileVersionRecord) → Has r dropped → Has r rs
  pub regular : All (λ r. is_regular keep_pinned r ≡ true) dropped
  pub limit : length (filter (is_regular keep_pinned) kept) + count ≤ max keep_latest count
  pub full :
      (r : FileVersionRecord)
      → Has r dropped
      → keep_latest ≤ length (filter (is_regular keep_pinned) kept) + count
  pub latest :
      (k d : FileVersionRecord)
      → Has k kept
      → is_regular keep_pinned k ≡ true
      → Has d dropped
      → version_leb k d ≡ true

abbrev pub same_id : FileVersionRecord → FileVersionRecord → Bool
same_id a b = a.version_id == b.version_id

pub same_id-swap : (a b : FileVersionRecord) → same_id a b ≡ false → same_id b a ≡ false
same_id-swap a b e =
    ground (arith, eq_iff a.version_id b.version_id, eq_iff b.version_id a.version_id)

module _ (keep_pinned : Bool) (keep_latest : ℕ) where
  abbrev pub Split : ℕ → List FileVersionRecord → Type 0
  Split count rs =
      Splits keep_pinned keep_latest count rs (retain_loop keep_pinned keep_latest count rs).0
        (retain_loop keep_pinned keep_latest count rs).1

  keep_pin :
      (count : ℕ) (r : FileVersionRecord) (rest kept dropped : List FileVersionRecord)
      → is_regular keep_pinned r ≡ false
      → Splits keep_pinned keep_latest count rest kept dropped
      → Splits keep_pinned keep_latest count (r ∷ rest) (r ∷ kept) dropped
  keep_pin count r rest kept dropped pin s = record {
    covers = λ x h. elim h [
      | inl e ↦ inl (inl e)
      | inr later ↦ elim (s.covers x later) [ inl k ↦ inl (inr k) | inr d ↦ inr d ]
    ];
    from_kept = λ x h. elim h [ inl e ↦ inl e | inr k ↦ inr (s.from_kept x k) ];
    from_dropped = λ x h. inr (s.from_dropped x h);
    regular = s.regular;
    limit = rw pin s.limit;
    full = λ x h. rw pin (s.full x h);
    latest = λ k d hk reg hd. elim hk [
      | inl e ↦ absurd (let clash = sym pin ∙ ap (is_regular keep_pinned) (sym e) ∙ reg in cc)
      | inr later ↦ s.latest k d later reg hd
    ];
  }

  one_more :
      (l count : ℕ)
      → l + (count + 1) ≤ max keep_latest (count + 1)
      → ltb count keep_latest ≡ true
      → suc l + count ≤ max keep_latest count
  one_more l count h room = ground (arith, h, room)

  keep_regular :
      (count : ℕ) (r : FileVersionRecord) (rest kept dropped : List FileVersionRecord)
      → is_regular keep_pinned r ≡ true
      → ltb count keep_latest ≡ true
      → All (λ x. version_leb r x ≡ true) rest
      → Splits keep_pinned keep_latest (count + 1) rest kept dropped
      → Splits keep_pinned keep_latest count (r ∷ rest) (r ∷ kept) dropped
  keep_regular count r rest kept dropped reg room below s = record {
    covers = λ x h. elim h [
      | inl e ↦ inl (inl e)
      | inr later ↦ elim (s.covers x later) [ inl k ↦ inl (inr k) | inr d ↦ inr d ]
    ];
    from_kept = λ x h. elim h [ inl e ↦ inl e | inr k ↦ inr (s.from_kept x k) ];
    from_dropped = λ x h. inr (s.from_dropped x h);
    regular = s.regular;
    limit = rw reg (one_more (length (filter (is_regular keep_pinned) kept)) count s.limit room);
    full = λ x h. rw reg (omega (arith, s.full x h));
    latest = λ k d hk reg_k hd. elim hk [
      | inl e ↦
          (let b = All-Has (λ x. version_leb r x ≡ true) d rest below (s.from_dropped d hd) in cc)
      | inr later ↦ s.latest k d later reg_k hd
    ];
  }

  drop_one :
      (count : ℕ) (r : FileVersionRecord) (rest kept dropped : List FileVersionRecord)
      → is_regular keep_pinned r ≡ true
      → ltb count keep_latest ≡ false
      → Splits keep_pinned keep_latest count rest kept dropped
      → Splits keep_pinned keep_latest count (r ∷ rest) kept (r ∷ dropped)
  drop_one count r rest kept dropped reg no_room s =
      let none_counted : length (filter (is_regular keep_pinned) kept) ≡ 0 =
        ground (arith, s.limit, no_room) in
      record {
        covers = λ x h. elim h [
          | inl e ↦ inr (inl e)
          | inr later ↦ elim (s.covers x later) [ inl k ↦ inl k | inr d ↦ inr (inr d) ]
        ];
        from_kept = λ x h. inr (s.from_kept x h);
        from_dropped = λ x h. elim h [ inl e ↦ inl e | inr d ↦ inr (s.from_dropped x d) ];
        regular = (reg, s.regular);
        limit = s.limit;
        full = λ x h. ground (arith, no_room);
        latest = λ k d hk reg_k hd. absurd (
            let one = length-filter_Has (is_regular keep_pinned) k kept hk reg_k in
            omega (arith, one, none_counted));
      }

  pub retain-Splits :
      (count : ℕ) (rs : List FileVersionRecord) → IsSorted version_leb rs → Split count rs
  unfolding retain_loop
  retain-Splits count [] h = record {
    covers = λ r. absurd;
    from_kept = λ r. absurd;
    from_dropped = λ r. absurd;
    regular = tt;
    limit = omega arith;
    full = λ r. absurd;
    latest = λ k d h'. absurd h';
  }
  retain-Splits count (r ∷ rest) h = elim (Bool-cases (keep_pinned && r.is_pinned)) [
    | inl pin ↦ rw pin (keep_pin count r rest _ _ (rw pin refl) (retain-Splits count rest h.1))
    | inr reg ↦ elim (Bool-cases (ltb count keep_latest)) [
      | inl room ↦
          rw (reg, room)
            (keep_regular count r rest _ _ (rw reg refl) room h.0
              (retain-Splits (count + 1) rest h.1))
      | inr no_room ↦
          rw (reg, no_room)
            (drop_one count r rest _ _ (rw reg refl) no_room (retain-Splits count rest h.1))
    ]
  ]

  -- The loop keeps the first version or drops it, and goes on.
  retain_first :
      (count : ℕ) (r : FileVersionRecord) (rest : List FileVersionRecord)
      → (next : ℕ) × (let later = retain_loop keep_pinned keep_latest next rest in
          (retain_loop keep_pinned keep_latest count (r ∷ rest) ≡ (r ∷ later.0, later.1))
          ⊎ (retain_loop keep_pinned keep_latest count (r ∷ rest) ≡ (later.0, r ∷ later.1)))
  unfolding retain_loop
  retain_first count r rest = elim (Bool-cases (keep_pinned && r.is_pinned)) [
    | inl pin ↦ (count, inl (rw pin refl))
    | inr reg ↦ elim (Bool-cases (ltb count keep_latest)) [
      | inl room ↦ (count + 1, inl (rw (reg, room) refl))
      | inr no_room ↦ (count, inr (rw (reg, no_room) refl))
    ]
  ]

  pub retain-IsSorted :
      (count : ℕ) (rs : List FileVersionRecord)
      → IsSorted version_leb rs
      → IsSorted version_leb (retain_loop keep_pinned keep_latest count rs).0
  unfolding retain_loop
  retain-IsSorted count [] h = tt
  retain-IsSorted count (r ∷ rest) h =
      let (next, which) = retain_first count r rest in
      let later = retain_loop keep_pinned keep_latest next rest in
      let below =
        All-of_Has (λ x. version_leb r x ≡ true) later.0
          (λ x hx. All-Has _ x rest h.0 ((retain-Splits next rest h.1).from_kept x hx)) in
      elim which [
        | inl e ↦
            subst (λ p. IsSorted version_leb p.0) (sym e) (below, retain-IsSorted next rest h.1)
        | inr e ↦ subst (λ p. IsSorted version_leb p.0) (sym e) (retain-IsSorted next rest h.1)
      ]

  -- No version that is kept has the id of one that is dropped, if no two have one id.
  pub retain-Apart :
      (count : ℕ) (rs : List FileVersionRecord)
      → IsSorted version_leb rs
      → Apart same_id rs
      → (k d : FileVersionRecord) → Has k (retain_loop keep_pinned keep_latest count rs).0
      → Has d (retain_loop keep_pinned keep_latest count rs).1
      → same_id d k ≡ false
  unfolding retain_loop
  retain-Apart count [] h a k d hk hd = absurd hk
  retain-Apart count (r ∷ rest) h a k d hk hd =
      let (next, which) = retain_first count r rest in
      let later = retain_loop keep_pinned keep_latest next rest in
      let s = retain-Splits next rest h.1 in
      elim which [
        | inl e ↦ elim (subst (λ p. Has k p.0) e hk) [
          | inl first ↦
              let in_rest = s.from_dropped d (subst (λ p. Has d p.1) e hd) in
              same_id-swap k d (ap (λ x. same_id x d) first ∙ All-Has _ d rest a.0 in_rest)
          | inr kept ↦ retain-Apart next rest h.1 a.1 k d kept (subst (λ p. Has d p.1) e hd)
        ]
        | inr e ↦ elim (subst (λ p. Has d p.1) e hd) [
          | inl first ↦
              let in_rest = s.from_kept k (subst (λ p. Has k p.0) e hk) in
              ap (λ x. same_id x k) first ∙ All-Has _ k rest a.0 in_rest
          | inr dropped ↦ retain-Apart next rest h.1 a.1 k d (subst (λ p. Has k p.0) e hk) dropped
        ]
      ]
