-- ===== src/Base/Lists.antt =====
-- Lists: tests that run, and the predicates by recursion that the proofs split on.
use Prim.Native.Nat.{ℕ, suc, ◌+◌, ◌≤◌}
use mathlib.Core.Path.{◌≡◌, refl, sym, ap, subst, ◌∙◌}
use mathlib.Core.Logic.{◌⊎◌, inl, inr}
use mathlib.Core.Bool.{Bool, true, false, ◌||◌}
use mathlib.Core.Option.{Option, none, some}
use mathlib.Core.List.{List, [], ◌∷◌, ◌++◌, map}
use native.Mathlib.Omega.{arith}
use personal_knowledge_base.Base.Tests.{if◌then◌else◌, Bool-cases}

module _ {ℓ} {A : Type ℓ} where
  abbrev pub length : List A → ℕ
  length [] = 0
  length (x ∷ xs) = suc (length xs)

  -- `[x for x in xs if p(x)]`
  abbrev pub filter : (A → Bool) → List A → List A
  filter p [] = []
  filter p (x ∷ xs) = let rest = filter p xs in if p x then x ∷ rest else rest

  -- `any(p(x) for x in xs)`
  abbrev pub any : (A → Bool) → List A → Bool
  any p [] = false
  any p (x ∷ xs) = p x || any p xs

  -- The first element that passes a test.
  abbrev pub find : (A → Bool) → List A → Option A
  find p [] = none
  find p (x ∷ xs) = if p x then some x else find p xs

module _ {ℓ κ} {A : Type ℓ} (P : A → Type κ) where
  abbrev pub All : List A → Type κ
  All [] = Unit
  All (x ∷ xs) = P x × All xs

  pub All-append : (xs ys : List A) → All xs → All ys → All (xs ++ ys)
  All-append [] ys hx hy = hy
  All-append (x ∷ xs) ys hx hy = (hx.0, All-append xs ys hx.1 hy)

  pub All-append_left : (xs ys : List A) → All (xs ++ ys) → All xs
  All-append_left [] ys h = tt
  All-append_left (x ∷ xs) ys h = (h.0, All-append_left xs ys h.1)

  pub All-append_right : (xs ys : List A) → All (xs ++ ys) → All ys
  All-append_right [] ys h = h
  All-append_right (x ∷ xs) ys h = All-append_right xs ys h.1

  pub All-filter : (p : A → Bool) (xs : List A) → All xs → All (filter p xs)
  All-filter p [] h = tt
  All-filter p (x ∷ xs) h = elim (Bool-cases (p x)) [
    | inl e ↦ rw e (h.0, All-filter p xs h.1)
    | inr e ↦ rw e (All-filter p xs h.1)
  ]

  pub All-of_forall : ((x : A) → P x) → (xs : List A) → All xs
  All-of_forall f [] = tt
  All-of_forall f (x ∷ xs) = (f x, All-of_forall f xs)

module _ {A : Type 0} where
  -- `a` stands in the list, with the place kept.
  abbrev pub Has : A → List A → Type 0
  Has a [] = ⊥
  Has a (x ∷ xs) = (a ≡ x) ⊎ Has a xs

  pub Has-append_left : (a : A) (xs ys : List A) → Has a xs → Has a (xs ++ ys)
  Has-append_left a [] ys h = absurd h
  Has-append_left a (x ∷ xs) ys (inl e) = inl e
  Has-append_left a (x ∷ xs) ys (inr h) = inr (Has-append_left a xs ys h)

  pub Has-append_right : (a : A) (xs ys : List A) → Has a ys → Has a (xs ++ ys)
  Has-append_right a [] ys h = h
  Has-append_right a (x ∷ xs) ys h = inr (Has-append_right a xs ys h)

  pub Has-append : (a : A) (xs ys : List A) → Has a (xs ++ ys) → Has a xs ⊎ Has a ys
  Has-append a [] ys h = inr h
  Has-append a (x ∷ xs) ys (inl e) = inl (inl e)
  Has-append a (x ∷ xs) ys (inr h) = elim (Has-append a xs ys h) [
    | inl l ↦ inl (inr l)
    | inr r ↦ inr r
  ]

  pub Has-filter :
      (p : A → Bool) (a : A) (xs : List A) → Has a xs → p a ≡ true → Has a (filter p xs)
  Has-filter p a [] h t = h
  Has-filter p a (x ∷ xs) (inl e) t = rw (ap p (sym e) ∙ t) (inl e)
  Has-filter p a (x ∷ xs) (inr h) t = elim (Bool-cases (p x)) [
    | inl e ↦ rw e (inr (Has-filter p a xs h t))
    | inr e ↦ rw e (Has-filter p a xs h t)
  ]

  pub Has-of_filter :
      (p : A → Bool) (a : A) (xs : List A) → Has a (filter p xs) → Has a xs × (p a ≡ true)
  Has-of_filter p a [] h = absurd h
  Has-of_filter p a (x ∷ xs) h = elim (Bool-cases (p x)) [
    | inl e ↦ first e (Has-of_filter p a xs) (rw e at h)
    | inr e ↦ let r = Has-of_filter p a xs (rw e at h) in (inr r.0, r.1)
  ]
    where
      first :
          p x ≡ true
          → (Has a (filter p xs) → Has a xs × (p a ≡ true))
          → Has a (x ∷ filter p xs)
          → Has a (x ∷ xs) × (p a ≡ true)
      first e ih (inl q) = (inl q, ap p q ∙ e)
      first e ih (inr r) = let s = ih r in (inr s.0, s.1)

  pub All-Has {κ} : (P : A → Type κ) (a : A) (xs : List A) → All P xs → Has a xs → P a
  All-Has P a [] h m = absurd m
  All-Has P a (x ∷ xs) h (inl e) = subst P (sym e) h.0
  All-Has P a (x ∷ xs) h (inr m) = All-Has P a xs h.1 m

  pub All-of_Has {κ} : (P : A → Type κ) (xs : List A) → ((a : A) → Has a xs → P a) → All P xs
  All-of_Has P [] f = tt
  All-of_Has P (x ∷ xs) f = (f x (inl refl), All-of_Has P xs (λ a m. f a (inr m)))

  pub Has-of_any :
      (p : A → Bool) (xs : List A) → any p xs ≡ true → (a : A) × Has a xs × (p a ≡ true)
  Has-of_any p [] h = cc
  Has-of_any p (x ∷ xs) h = elim (Bool-cases (p x)) [
    | inl e ↦ (x, inl refl, e)
    | inr e ↦ let r = Has-of_any p xs (rw e at h) in (r.0, inr r.1, r.2)
  ]

  pub any_of_Has : (p : A → Bool) (a : A) (xs : List A) → Has a xs → p a ≡ true → any p xs ≡ true
  any_of_Has p a [] m e = absurd m
  any_of_Has p a (x ∷ xs) (inl q) e = rw (ap p (sym q) ∙ e)
  any_of_Has p a (x ∷ xs) (inr m) e = ground (arith, any_of_Has p a xs m e)

  pub Has-of_find :
      (p : A → Bool) (xs : List A) (a : A) → find p xs ≡ some a → Has a xs × (p a ≡ true)
  Has-of_find p [] a h = cc
  Has-of_find p (x ∷ xs) a h = elim (Bool-cases (p x)) [
    | inl e ↦ let q : x ≡ a = ground arith in (inl (sym q), ap p (sym q) ∙ e)
    | inr e ↦ let r = Has-of_find p xs a (rw e at h) in (inr r.0, r.1)
  ]

  pub find-eq-none : (p : A → Bool) (xs : List A) → find p xs ≡ none → All (λ x. p x ≡ false) xs
  find-eq-none p [] h = tt
  find-eq-none p (x ∷ xs) h = elim (Bool-cases (p x)) [
    | inl e ↦ cc (rw e at h)
    | inr e ↦ (e, find-eq-none p xs (rw e at h))
  ]

  pub length-append : (xs ys : List A) → length (xs ++ ys) ≡ length xs + length ys
  length-append [] ys = omega arith
  length-append (x ∷ xs) ys = omega (arith, length-append xs ys)

  pub length-filter : (p : A → Bool) (xs : List A) → length (filter p xs) ≤ length xs
  length-filter p [] = omega arith
  length-filter p (x ∷ xs) = ground (arith, length-filter p xs)

module _ {A : Type 0} (clash : A → A → Bool) where
  -- No two elements clash.
  abbrev pub Apart : List A → Type 0
  Apart [] = Unit
  Apart (x ∷ xs) = All (λ y. clash x y ≡ false) xs × Apart xs

  pub Apart-snoc :
      (xs : List A) (a : A) → Apart xs → All (λ x. clash x a ≡ false) xs → Apart (xs ++ a ∷ [])
  Apart-snoc [] a h k = (tt, tt)
  Apart-snoc (x ∷ xs) a h k =
      (All-append (λ y. clash x y ≡ false) xs (a ∷ []) h.0 (k.0, tt), Apart-snoc xs a h.1 k.1)

  pub Apart-filter : (p : A → Bool) (xs : List A) → Apart xs → Apart (filter p xs)
  Apart-filter p [] h = tt
  Apart-filter p (x ∷ xs) h = elim (Bool-cases (p x)) [
    | inl e ↦ rw e (All-filter (λ y. clash x y ≡ false) p xs h.0, Apart-filter p xs h.1)
    | inr e ↦ rw e (Apart-filter p xs h.1)
  ]

All-imp₂ {κ} :
    {A : Type 0} (P : A → Type κ) (p q r : A → Bool)
    → ((y : A) → P y → p y ≡ false → q y ≡ false → r y ≡ false)
    → (xs : List A) → All P xs
    → All (λ y. p y ≡ false) xs
    → All (λ y. q y ≡ false) xs
    → All (λ y. r y ≡ false) xs
All-imp₂ P p q r f [] h a b = tt
All-imp₂ P p q r f (y ∷ xs) h a b = (f y h.0 a.0 b.0, All-imp₂ P p q r f xs h.1 a.1 b.1)

-- What is apart in two ways, and has a property in each element, is apart in a third way.
pub Apart-imp₂ {κ} :
    {A : Type 0} (P : A → Type κ) (a b c : A → A → Bool)
    → ((x y : A) → P x → P y → a x y ≡ false → b x y ≡ false → c x y ≡ false)
    → (xs : List A) → All P xs
    → Apart a xs
    → Apart b xs
    → Apart c xs
Apart-imp₂ P a b c f [] h ha hb = tt
Apart-imp₂ P a b c f (x ∷ xs) h ha hb = (
  All-imp₂ P (a x) (b x) (c x) (λ y. f x y h.0) xs h.1 ha.0 hb.0,
  Apart-imp₂ P a b c f xs h.1 ha.1 hb.1,
)

pub All-map {ℓ κ μ} :
    {A : Type ℓ} {B : Type κ} (P : B → Type μ) (f : A → B) (xs : List A)
    → All (λ x. P (f x)) xs
    → All P (map f xs)
All-map P f [] h = tt
All-map P f (x ∷ xs) h = (h.0, All-map P f xs h.1)

pub Apart-map :
    {A B : Type 0} (clash : B → B → Bool) (f : A → B) (xs : List A)
    → Apart (λ x y. clash (f x) (f y)) xs
    → Apart clash (map f xs)
Apart-map clash f [] h = tt
Apart-map clash f (x ∷ xs) h =
    (All-map (λ y. clash (f x) y ≡ false) f xs h.0, Apart-map clash f xs h.1)

pub All-of_any :
    {A : Type 0} (p : A → Bool) (xs : List A) → any p xs ≡ false → All (λ x. p x ≡ false) xs
All-of_any p [] h = tt
All-of_any p (x ∷ xs) h = (ground arith, All-of_any p xs (ground arith))

pub any_of_All :
    {A : Type 0} (p : A → Bool) (xs : List A) → All (λ x. p x ≡ false) xs → any p xs ≡ false
any_of_All p [] h = refl
any_of_All p (x ∷ xs) h = ground (arith, any_of_All p xs h.1)

pub filter_of_All :
    {A : Type 0} (p : A → Bool) (xs : List A) → All (λ x. p x ≡ true) xs → filter p xs ≡ xs
filter_of_All p [] h = refl
filter_of_All p (x ∷ xs) h = rw h.0 (ap (λ l. x ∷ l) (filter_of_All p xs h.1))

pub filter-append :
    {A : Type 0} (p : A → Bool) (xs ys : List A) → filter p (xs ++ ys) ≡ filter p xs ++ filter p ys
filter-append p [] ys = refl
filter-append p (x ∷ xs) ys = ground (arith, filter-append p xs ys)

pub filter_none :
    {A : Type 0} (p : A → Bool) (xs : List A) → All (λ x. p x ≡ false) xs → filter p xs ≡ []
filter_none p [] h = refl
filter_none p (x ∷ xs) h = rw h.0 (filter_none p xs h.1)

-- What a filter keeps passes every test that the kept elements pass.
pub All-filter_of {κ} :
    {A : Type 0} (P : A → Type κ) (p : A → Bool)
    → ((x : A) → p x ≡ true → P x)
    → (xs : List A) → All P (filter p xs)
All-filter_of P p f [] = tt
All-filter_of P p f (x ∷ xs) = elim (Bool-cases (p x)) [
  | inl e ↦ rw e (f x e, All-filter_of P p f xs)
  | inr e ↦ rw e (All-filter_of P p f xs)
]

pub All-imp {κ μ} :
    {A : Type 0} (P : A → Type κ) (Q : A → Type μ)
    → ((x : A) → P x → Q x)
    → (xs : List A) → All P xs
    → All Q xs
All-imp P Q f [] h = tt
All-imp P Q f (x ∷ xs) h = (f x h.0, All-imp P Q f xs h.1)

pub Has-map : {A B : Type 0} (f : A → B) (x : A) (xs : List A) → Has x xs → Has (f x) (map f xs)
Has-map f x [] h = absurd h
Has-map f x (y ∷ xs) (inl e) = inl (ap f e)
Has-map f x (y ∷ xs) (inr later) = inr (Has-map f x xs later)

pub Has-of_map :
    {A B : Type 0} (f : A → B) (y : B) (xs : List A)
    → Has y (map f xs)
    → (x : A) × Has x xs × (f x ≡ y)
Has-of_map f y [] h = absurd h
Has-of_map f y (x ∷ xs) (inl e) = (x, inl refl, sym e)
Has-of_map f y (x ∷ xs) (inr h) = let (a, has, same) = Has-of_map f y xs h in (a, inr has, same)
