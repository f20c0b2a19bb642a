-- ===== src/Server/Log.antt =====
-- sync_store.py: the vault as a log of manifests, and the methods as steps of it.
use mathlib.Core.Option.{some-injective}
use personal_knowledge_base.Base.{
  ℕ, ◌+◌, ◌≤◌, zero, suc, String, ◌==◌, ◌≡◌, refl, ap, sym, ◌∙◌, Option, none, some, List, [], ◌∷◌,
  ◌++◌, length, arith, nat_eq, Bool-cases, if◌then◌else◌, inl, inr,
}
use personal_knowledge_base.Base.Dict.{Dict, get, put, get-put, get-put_same, get-put_other}
use personal_knowledge_base.Models.{ManifestRecord}
use personal_knowledge_base.Paths.Decimal.{decimal, decimal_injective}
use personal_knowledge_base.Server.Vault.{ServerCommit, ServerVault}
use personal_knowledge_base.Server.Collect.{acked_by}
use personal_knowledge_base.Server.Effects.{Effect, keeps, appends}

module _ {A : Type 0} where
  abbrev pub get_elem? : List A → ℕ → Option A
  get_elem? [] n = none
  get_elem? (x ∷ xs) zero = some x
  get_elem? (x ∷ xs) (suc n) = get_elem? xs n

  abbrev pub last : List A → Option A
  last [] = none
  last (x ∷ []) = some x
  last (x ∷ y ∷ xs) = last (y ∷ xs)

  get_elem?-append_end : (xs : List A) (a : A) → get_elem? (xs ++ a ∷ []) (length xs) ≡ some a
  get_elem?-append_end [] a = refl
  get_elem?-append_end (x ∷ xs) a = get_elem?-append_end xs a

  get_elem?-append_other :
      (xs : List A) (a : A) (n : ℕ)
      → ((length xs ≡ n) → ⊥)
      → get_elem? (xs ++ a ∷ []) n ≡ get_elem? xs n
  get_elem?-append_other [] a zero ne = absurd (ne refl)
  get_elem?-append_other [] a (suc n) ne = refl
  get_elem?-append_other (x ∷ xs) a zero ne = refl
  get_elem?-append_other (x ∷ xs) a (suc n) ne = get_elem?-append_other xs a n (λ e. ne (ap suc e))

  length-append_end : (xs : List A) (a : A) → length (xs ++ a ∷ []) ≡ length xs + 1
  length-append_end [] a = refl
  length-append_end (x ∷ xs) a = omega (arith, length-append_end xs a)

  last-append_end : (xs : List A) (a : A) → last (xs ++ a ∷ []) ≡ some a
  last-append_end [] a = refl
  last-append_end (x ∷ []) a = refl
  last-append_end (x ∷ y ∷ xs) a = last-append_end (y ∷ xs) a

  pub get_elem?-prefix :
      (xs ys : List A) (n : ℕ) (a : A) → get_elem? xs n ≡ some a → get_elem? (xs ++ ys) n ≡ some a
  get_elem?-prefix [] ys n a h = cc
  get_elem?-prefix (x ∷ xs) ys zero a h = h
  get_elem?-prefix (x ∷ xs) ys (suc n) a h = get_elem?-prefix xs ys n a h

  pub get_elem?-bound : (xs : List A) (n : ℕ) (a : A) → get_elem? xs n ≡ some a → suc n ≤ length xs
  get_elem?-bound [] n a h = cc
  get_elem?-bound (x ∷ xs) zero a h = omega arith
  get_elem?-bound (x ∷ xs) (suc n) a h = omega (arith, get_elem?-bound xs n a h)

  pub last-get_elem? :
      (xs : List A) (n : ℕ)
      → length xs ≡ suc n
      → (a : A) × (get_elem? xs n ≡ some a) × (last xs ≡ some a)
  last-get_elem? [] n e = absurd (omega (arith, e))
  last-get_elem? (x ∷ []) zero e = (x, refl, refl)
  last-get_elem? (x ∷ []) (suc n) e = absurd (omega (arith, e))
  last-get_elem? (x ∷ y ∷ xs) zero e = absurd (omega (arith, e))
  last-get_elem? (x ∷ y ∷ xs) (suc n) e = last-get_elem? (y ∷ xs) n (omega (arith, e))

abbrev pub hash_of : Option ManifestRecord → Option String
hash_of none = none
hash_of (some m) = some m.summary_hash

-- The vault stores this log: the manifest of revision `n + 1` is its entry `n`, and the head is its end.
pub record Represents (v : ServerVault) (log : List ManifestRecord) : Type 0 where
  pub head : v.head_revision ≡ length log
  pub entries : (n : ℕ) → get v.manifests (decimal (suc n)) ≡ get_elem? log n
  pub summary : v.manifest_summary ≡ hash_of (last log)
  pub numbered :
      (n : ℕ) (m : ManifestRecord)
      → get_elem? log n ≡ some m
      → (m.revision ≡ suc n) × (m.base_revision ≡ n)
  pub acked : (i : String) → acked_by v i ≤ length log
  pub committed :
      (i : String) (c : ServerCommit) → get v.commits i ≡ some c → c.revision ≤ length log

-- A log grows by one manifest at most.
pub data Grows : List ManifestRecord → List ManifestRecord → Type 0 where
  stays : {log : List ManifestRecord} → Grows log log
  grows : {log : List ManifestRecord} (m : ManifestRecord) → Grows log (log ++ m ∷ [])

entries_after :
    (v : ServerVault) (log : List ManifestRecord) (m : ManifestRecord)
    → Represents v log
    → (n : ℕ)
    → get (put v.manifests (decimal (suc (length log))) m) (decimal (suc n))
      ≡ get_elem? (log ++ m ∷ []) n
entries_after v log m r n = elim (Bool-cases (nat_eq (length log) n)) [
  | inl e ↦
      let same : length log ≡ n = ground (arith, e) in
      ap (λ k. get (put v.manifests (decimal (suc (length log))) m) (decimal (suc k))) (sym same)
      ∙ get-put_same v.manifests (decimal (suc (length log))) m
      ∙ sym (get_elem?-append_end log m)
      ∙ ap (get_elem? (log ++ m ∷ [])) same
  | inr e ↦
      let other : (length log ≡ n) → ⊥ = λ same. ground (arith, e, same) in
      get-put_other v.manifests (decimal (suc (length log))) (decimal (suc n)) m
        (λ d. other (omega (arith, decimal_injective (suc (length log)) (suc n) d)))
      ∙ r.entries n
      ∙ sym (get_elem?-append_other log m n other)
]

numbered_after :
    (v : ServerVault) (log : List ManifestRecord) (m : ManifestRecord)
    → Represents v log
    → m.revision ≡ suc (length log)
    → m.base_revision ≡ length log
    → (n : ℕ) (x : ManifestRecord) → get_elem? (log ++ m ∷ []) n ≡ some x
    → (x.revision ≡ suc n) × (x.base_revision ≡ n)
numbered_after v log m r revision base n x at_n = elim (Bool-cases (nat_eq (length log) n)) [
  | inl e ↦
      let same : length log ≡ n = ground (arith, e) in
      let is_m : some m ≡ some x =
        sym (get_elem?-append_end log m) ∙ ap (get_elem? (log ++ m ∷ [])) same ∙ at_n in
      (
        sym (ap (λ (y : ManifestRecord). y.revision) (some-injective m x is_m))
            ∙ revision
            ∙ ap suc same,
        sym (ap (λ (y : ManifestRecord). y.base_revision) (some-injective m x is_m)) ∙ base ∙ same,
      )
  | inr e ↦
      let other : (length log ≡ n) → ⊥ = λ same. ground (arith, e, same) in
      r.numbered n x (sym (get_elem?-append_other log m n other) ∙ at_n)
]

-- One effect on the vault is one step of the log.
pub Effect-Represents :
    (v w : ServerVault) (log : List ManifestRecord)
    → Effect v w
    → Represents v log
    → (after : List ManifestRecord) × Grows log after × Represents w after
Effect-Represents v w log (keeps h ms s cs a) r = (
  log,
  stays,
  record {
    head = h ∙ r.head;
    entries = λ n. ap (λ (d : Dict ManifestRecord). get d (decimal (suc n))) ms ∙ r.entries n;
    summary = s ∙ r.summary;
    numbered = r.numbered;
    acked = λ i. ground (arith, a.bounded i, r.acked i, h, r.head);
    committed = λ i c has. r.committed i c (ap (λ (d : Dict ServerCommit). get d i) (sym cs) ∙ has);
  },
)
Effect-Represents v w log (appends m key c rev base h ms s cs cr free a) r =
    let at_end : v.head_revision + 1 ≡ suc (length log) = omega (arith, r.head) in
    let longer = length-append_end log m in
    (
      log ++ m ∷ [],
      grows m,
      record {
        head = omega (arith, h, r.head, longer);
        entries = λ n.
            ap (λ (d : Dict ManifestRecord). get d (decimal (suc n)))
              (ms ∙ ap (λ k. put v.manifests (decimal k) m) at_end)
            ∙ entries_after v log m r n;
        summary = s ∙ ap hash_of (sym (last-append_end log m));
        numbered = numbered_after v log m r (rev ∙ at_end) (base ∙ r.head);
        acked = λ i. ground (arith, a.bounded i, r.acked i, h, r.head, longer);
        committed = λ i x has.
            let read : (if key == i then some c else get v.commits i) ≡ some x =
              sym (get-put v.commits key i c)
              ∙ ap (λ (d : Dict ServerCommit). get d i) (sym cs)
              ∙ has in
            elim (Bool-cases (key == i)) [
              | inl e ↦ ground (
                arith,
                ap (λ (y : ServerCommit). y.revision) (some-injective c x (rw e at read)),
                cr,
                r.head,
                longer,
              )
              | inr e ↦ ground (arith, r.committed i x (rw e at read), longer)
            ];
      },
    )
