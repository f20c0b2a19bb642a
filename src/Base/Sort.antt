-- ===== src/Base/Sort.antt =====
-- Python's `sorted(xs, key=...)`: stable, by a Boolean order on the elements.
use mathlib.Core.Path.{◌≡◌, refl}
use mathlib.Core.Logic.{◌⊎◌, inl, inr}
use mathlib.Core.Bool.{Bool, true, false}
use mathlib.Core.List.{List, [], ◌∷◌, Perm}
use mathlib.Core.List.Perm
use personal_knowledge_base.Base.Tests.{if◌then◌else◌, Bool-cases}
use personal_knowledge_base.Base.Lists.{All, Has}

module _ {ℓ} {A : Type ℓ} (le : A → A → Bool) where
  -- An element goes before those that it is equal to.
  unfoldable pub insert : A → List A → List A
  insert x [] = x ∷ []
  insert x (y ∷ ys) = if le x y then x ∷ (y ∷ ys) else y ∷ insert x ys

  unfoldable pub sorted : List A → List A
  unfolding insert
  sorted [] = []
  sorted (x ∷ xs) = insert x (sorted xs)

  abbrev pub IsSorted : List A → Type ℓ
  IsSorted [] = Unit
  IsSorted (x ∷ xs) = All (λ y. le x y ≡ true) xs × IsSorted xs

module _ {ℓ} {A : Type ℓ} (le : A → A → Bool) where
  pub insert-perm : (x : A) (ys : List A) → Perm (insert le x ys) (x ∷ ys)
  unfolding insert
  insert-perm x [] = Perm.refl (x ∷ [])
  insert-perm x (y ∷ ys) = elim (Bool-cases (le x y)) [
    | inl e ↦ rw e (Perm.refl _)
    | inr e ↦ rw e (Perm.trans (Perm.cons y (insert-perm x ys)) (Perm.swap x y ys))
  ]

  pub sorted-perm : (xs : List A) → Perm (sorted le xs) xs
  unfolding sorted
  sorted-perm [] = Perm.refl []
  sorted-perm (x ∷ xs) = Perm.trans (insert-perm x (sorted le xs)) (Perm.cons x (sorted-perm xs))

  pub All-insert {κ} :
      (P : A → Type κ) (x : A) (ys : List A) → P x → All P ys → All P (insert le x ys)
  unfolding insert
  All-insert P x [] p h = (p, tt)
  All-insert P x (y ∷ ys) p h = elim (Bool-cases (le x y)) [
    | inl e ↦ rw e (p, h)
    | inr e ↦ rw e (h.0, All-insert P x ys p h.1)
  ]

  pub All-sorted {κ} : (P : A → Type κ) (xs : List A) → All P xs → All P (sorted le xs)
  unfolding sorted
  All-sorted P [] h = tt
  All-sorted P (x ∷ xs) h = All-insert P x (sorted le xs) h.0 (All-sorted P xs h.1)

module _ {A : Type 0} (le : A → A → Bool) where
  pub Has-insert : (a x : A) (ys : List A) → Has a (insert le x ys) → (a ≡ x) ⊎ Has a ys
  unfolding insert
  Has-insert a x [] h = h
  Has-insert a x (y ∷ ys) h = elim (Bool-cases (le x y)) [
    | inl e ↦ rw e at h
    | inr e ↦ later (Has-insert a x ys) (rw e at h)
  ]
    where
      later :
          (Has a (insert le x ys) → (a ≡ x) ⊎ Has a ys)
          → Has a (y ∷ insert le x ys)
          → (a ≡ x) ⊎ Has a (y ∷ ys)
      later ih (inl q) = inr (inl q)
      later ih (inr r) = elim (ih r) [ inl q ↦ inl q | inr s ↦ inr (inr s) ]

  pub insert-Has : (a x : A) (ys : List A) → (a ≡ x) ⊎ Has a ys → Has a (insert le x ys)
  unfolding insert
  insert-Has a x [] h = h
  insert-Has a x (y ∷ ys) h = elim (Bool-cases (le x y)) [
    | inl e ↦ rw e h
    | inr e ↦ rw e (later (insert-Has a x ys) h)
  ]
    where
      later :
          ((a ≡ x) ⊎ Has a ys → Has a (insert le x ys))
          → (a ≡ x) ⊎ Has a (y ∷ ys)
          → Has a (y ∷ insert le x ys)
      later ih (inl q) = inr (ih (inl q))
      later ih (inr (inl q)) = inl q
      later ih (inr (inr r)) = inr (ih (inr r))

  pub Has-sorted : (a : A) (xs : List A) → Has a (sorted le xs) → Has a xs
  unfolding sorted
  Has-sorted a [] h = h
  Has-sorted a (x ∷ xs) h = elim (Has-insert a x (sorted le xs) h) [
    | inl q ↦ inl q
    | inr r ↦ inr (Has-sorted a xs r)
  ]

  pub sorted-Has : (a : A) (xs : List A) → Has a xs → Has a (sorted le xs)
  unfolding sorted
  sorted-Has a [] h = h
  sorted-Has a (x ∷ xs) (inl q) = insert-Has a x (sorted le xs) (inl q)
  sorted-Has a (x ∷ xs) (inr r) = insert-Has a x (sorted le xs) (inr (sorted-Has a xs r))

module _ {ℓ} {A : Type ℓ} (le : A → A → Bool) (total : (x y : A) → le x y ≡ false → le y x ≡ true)
    (trans : (x y z : A) → le x y ≡ true → le y z ≡ true → le x z ≡ true) where
  below :
      (x y : A) (ys : List A)
      → le x y ≡ true
      → All (λ z. le y z ≡ true) ys
      → All (λ z. le x z ≡ true) ys
  below x y [] e h = tt
  below x y (z ∷ ys) e h = (trans x y z e h.0, below x y ys e h.1)

  insert-IsSorted : (x : A) (ys : List A) → IsSorted le ys → IsSorted le (insert le x ys)
  unfolding insert
  insert-IsSorted x [] h = (tt, tt)
  insert-IsSorted x (y ∷ ys) h = elim (Bool-cases (le x y)) [
    | inl e ↦ rw e ((e, below x y ys e h.0), h)
    | inr e ↦
        rw e (All-insert le (λ z. le y z ≡ true) x ys (total x y e) h.0, insert-IsSorted x ys h.1)
  ]

  pub sorted-IsSorted : (xs : List A) → IsSorted le (sorted le xs)
  unfolding sorted
  sorted-IsSorted [] = tt
  sorted-IsSorted (x ∷ xs) = insert-IsSorted x (sorted le xs) (sorted-IsSorted xs)

-- A list that is in order stays as it is.
pub sorted_fixed :
    {A : Type 0} (le : A → A → Bool) (xs : List A) → IsSorted le xs → sorted le xs ≡ xs
unfolding sorted insert
sorted_fixed le [] h = refl
sorted_fixed le (x ∷ []) h = refl
sorted_fixed le (x ∷ y ∷ ys) h = rw (sorted_fixed le (y ∷ ys) h.1, h.0.0) refl
