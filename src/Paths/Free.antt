-- ===== src/Paths/Free.antt =====
-- paths.py: the name that `_next_available_path` finds is free, and its loop ends.
use Prim.Native.String.{◌++◌}
use mathlib.Core.List.{List, [], ◌∷◌}
use text.Mathlib.TextLemmas.{append_cancel_left, append_cancel_right}
use personal_knowledge_base.Base.{
  ℕ, zero, suc, ◌+◌, ◌≤◌, ◌<◌, String, ◌==◌, eq_iff, ◌≡◌, refl, ap, sym, ◌∙◌, true, false, not,
  filter, length, arith, Bool-cases, inl, inr,
}
use personal_knowledge_base.Paths.Decimal.{decimal, decimal_injective}
use personal_knowledge_base.Paths.Names.{
  is_taken, numbered, search_free, next_available_path, stem_suffix,
}

-- The directory without one name.
abbrev without : String → List String → List String
without name taken = filter (λ other. not (other == name)) taken

is_taken-without :
    (name other : String) (taken : List String)
    → (name == other) ≡ false
    → is_taken (without name taken) other ≡ is_taken taken other
is_taken-without name other [] h = refl
is_taken-without name other (x ∷ xs) h =
    ground
      (arith, is_taken-without name other xs h, eq_iff x name, eq_iff x other, eq_iff name other)

length-without : (name : String) (taken : List String) → length (without name taken) ≤ length taken
length-without name [] = omega arith
length-without name (x ∷ xs) = ground (arith, length-without name xs)

length-without_taken :
    (name : String) (taken : List String)
    → is_taken taken name ≡ true
    → length (without name taken) < length taken
length-without_taken name [] h = absurd (ground arith)
length-without_taken name (x ∷ xs) h =
    ground (arith, length-without name xs, length-without_taken name xs)

module _ (candidate : ℕ → String) (injective : (m n : ℕ) → candidate m ≡ candidate n → m ≡ n) where
  other_candidate : (m n : ℕ) → m < n → (candidate m == candidate n) ≡ false
  other_candidate m n h = elim (Bool-cases (candidate m == candidate n)) [
    | inl e ↦ absurd (omega (arith, injective m n ((eq_iff (candidate m) (candidate n)).0 e)))
    | inr e ↦ e
  ]

  -- Later candidates do not meet an earlier one in the directory.
  search-without :
      (fuel earlier counter : ℕ) (taken : List String)
      → earlier < counter
      → search_free fuel candidate counter (without (candidate earlier) taken)
        ≡ search_free fuel candidate counter taken
  unfolding search_free
  search-without zero e c taken h = refl
  search-without (suc fuel) e c taken h = cc (
    is_taken-without (candidate e) (candidate c) taken (other_candidate e c h),
    search-without fuel e (c + 1) taken (omega arith),
  )

  search-later :
      (fuel earlier counter : ℕ) (taken : List String)
      → earlier < counter
      → (candidate earlier == search_free fuel candidate counter taken) ≡ false
  unfolding search_free
  search-later zero e c taken h = other_candidate e c h
  search-later (suc fuel) e c taken h = elim (Bool-cases (is_taken taken (candidate c))) [
    | inl t ↦ rw t (search-later fuel e (c + 1) taken (omega arith))
    | inr t ↦ rw t (other_candidate e c h)
  ]

  -- As many rounds as there are names are enough.
  search-free :
      (fuel counter : ℕ) (taken : List String)
      → length taken ≤ fuel
      → is_taken taken (search_free fuel candidate counter taken) ≡ false
  unfolding search_free
  search-free zero c [] h = refl
  search-free zero c (x ∷ xs) h = absurd (omega arith)
  search-free (suc fuel) c taken h = elim (Bool-cases (is_taken taken (candidate c))) [
    | inl t ↦ rw t (
        sym (
          is_taken-without (candidate c) (search_free fuel candidate (c + 1) taken) taken
            (search-later fuel c (c + 1) taken (omega arith)))
        ∙ ap (is_taken (without (candidate c) taken))
            (sym (search-without fuel c (c + 1) taken (omega arith)))
        ∙ search-free fuel (c + 1) (without (candidate c) taken)
            (omega (arith, length-without_taken (candidate c) taken t)))
    | inr t ↦ rw t t
  ]

numbered_injective :
    (parts : String × String) (m n : ℕ) → numbered parts m ≡ numbered parts n → m ≡ n
unfolding numbered
numbered_injective parts m n e = decimal_injective m n (
    append_cancel_right (decimal m) (decimal n) parts.1 (
      append_cancel_left " " (decimal m ++ parts.1) (decimal n ++ parts.1) (
        append_cancel_left parts.0 (" " ++ (decimal m ++ parts.1)) (" " ++ (decimal n ++ parts.1))
          e)))

-- The name that is found is free in the directory, however many names it holds.
pub next_available_path-free :
    (taken : List String) (name : String) → is_taken taken (next_available_path taken name) ≡ false
unfolding next_available_path
next_available_path-free taken name = elim (Bool-cases (is_taken taken name)) [
  | inl t ↦ rw t (
      search-free (numbered (stem_suffix name)) (numbered_injective (stem_suffix name))
        (length taken) 2 taken (omega arith))
  | inr t ↦ rw t t
]
