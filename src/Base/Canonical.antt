-- ===== src/Base/Canonical.antt =====
-- A sort does not depend on the order in which its input comes, where equal elements are one.
use mathlib.Core.Path.{◌≡◌, refl, sym, ap, ◌∙◌}
use mathlib.Core.Logic.{inl, inr}
use mathlib.Core.Bool.{Bool, true, false}
use mathlib.Core.List.{List, [], ◌∷◌, Permᴰ}
use personal_knowledge_base.Base.Tests.{Bool-cases}
use personal_knowledge_base.Base.Lists.{Has}
use personal_knowledge_base.Base.Sort.{insert, sorted}

Has-perm : {A : Type 0} (a : A) {xs ys : List A} → Permᴰ xs ys → Has a ys → Has a xs
Has-perm a Permᴰ.nil h = h
Has-perm a (Permᴰ.cons e p) (inl q) = inl (q ∙ sym e)
Has-perm a (Permᴰ.cons e p) (inr h) = inr (Has-perm a p h)
Has-perm a (Permᴰ.swap e f) (inl q) = inr (inl (q ∙ sym f))
Has-perm a (Permᴰ.swap e f) (inr (inl q)) = inl (q ∙ sym e)
Has-perm a (Permᴰ.swap e f) (inr (inr h)) = inr (inr h)
Has-perm a (Permᴰ.trans p q) h = Has-perm a p (Has-perm a q h)

module _ {A : Type 0} (le : A → A → Bool) (total : (x y : A) → le x y ≡ false → le y x ≡ true)
    (trans : (x y z : A) → le x y ≡ true → le y z ≡ true → le x z ≡ true) where
  insert_below :
      (x y : A)
      → le x y ≡ true
      → le y x ≡ false
      → (l : List A) → insert le x (insert le y l) ≡ insert le y (insert le x l)
  unfolding insert
  insert_below x y h k [] = rw (h, k)
  insert_below x y h k (z ∷ l) = elim (Bool-cases (le y z)) [
    | inl a ↦ rw (a, trans x y z h a, h, k, a)
    | inr a ↦ elim (Bool-cases (le x z)) [
      | inl b ↦ rw (a, b, k, a)
      | inr b ↦ rw (a, b, a) (ap (λ m. z ∷ m) (insert_below x y h k l))
    ]
  ]

  insert_comm :
      (x y : A)
      → (le x y ≡ true → le y x ≡ true → x ≡ y)
      → (l : List A) → insert le x (insert le y l) ≡ insert le y (insert le x l)
  insert_comm x y anti l = elim (Bool-cases (le x y)) [
    | inl h ↦ elim (Bool-cases (le y x)) [ inl k ↦ rw (anti h k) | inr k ↦ insert_below x y h k l ]
    | inr h ↦ sym (insert_below y x (total x y h) h l)
  ]

  pub sorted-perm_eq :
      {xs ys : List A}
      → Permᴰ xs ys
      → ((a b : A) → Has a xs → Has b xs → le a b ≡ true → le b a ≡ true → a ≡ b)
      → sorted le xs ≡ sorted le ys
  unfolding sorted
  sorted-perm_eq Permᴰ.nil anti = refl
  sorted-perm_eq (Permᴰ.cons {b = b} {l₁ = l} e p) anti =
      ap (λ c. insert le c (sorted le l)) e
      ∙ ap (insert le b) (sorted-perm_eq p (λ c d hc hd. anti c d (inr hc) (inr hd)))
  sorted-perm_eq (Permᴰ.swap {a = a} {b = b} {l = l} e f) anti =
      cc (e, f, insert_comm a b (anti a b (inl refl) (inr (inl refl))) (sorted le l))
  sorted-perm_eq (Permᴰ.trans p q) anti =
      sorted-perm_eq p anti
      ∙ sorted-perm_eq q (λ a b ha hb. anti a b (Has-perm a p ha) (Has-perm b p hb))
