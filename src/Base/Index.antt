-- ===== src/Base/Index.antt =====
-- Python's sets of texts, and `{key(x): x for x in xs}`, where the last element of a key stays.
use mathlib.Core.Logic.{◌⊎◌, inl, inr}
use mathlib.Core.Path.{◌≡◌, refl, sym, ap, subst, ◌∙◌}
use mathlib.Core.Option.{some, some-injective}
use mathlib.Core.Bool.{Bool}
use mathlib.Core.List.{List, [], ◌∷◌}
use Prim.Native.String.{String}
use text.Mathlib.Text.{◌==◌}
use text.Mathlib.TextEquality.{eq_iff}
use personal_knowledge_base.Base.Tests.{if◌then◌else◌, Bool-cases}
use personal_knowledge_base.Base.Lists.{any, Has, Has-of_any}
use personal_knowledge_base.Base.Dict.{Dict, get, put, get-put}

-- `s in set(texts)`
abbrev pub is_in : String → List String → Bool
is_in s texts = any (λ t. t == s) texts

-- A set of texts, as a list to be sorted.
unfoldable pub text_set : List String → List String
text_set [] = []
text_set (s ∷ rest) =
    let rest' = text_set rest in if any (λ t. t == s) rest then rest' else s ∷ rest'

pub Has-text_set : (a : String) (xs : List String) → Has a (text_set xs) → Has a xs
unfolding text_set
Has-text_set a [] h = absurd h
Has-text_set a (x ∷ xs) h = elim (Bool-cases (any (λ t. t == x) xs)) [
  | inl again ↦ inr (Has-text_set a xs (rw again at h))
  | inr new ↦ elim (rw new at h) [ inl e ↦ inl e | inr later ↦ inr (Has-text_set a xs later) ]
]

pub text_set-Has : (a : String) (xs : List String) → Has a xs → Has a (text_set xs)
unfolding text_set
text_set-Has a [] h = absurd h
text_set-Has a (x ∷ xs) (inr later) = elim (Bool-cases (any (λ t. t == x) xs)) [
  | inl again ↦ rw again (text_set-Has a xs later)
  | inr new ↦ rw new (inr (text_set-Has a xs later))
]
text_set-Has a (x ∷ xs) (inl e) = elim (Bool-cases (any (λ t. t == x) xs)) [
  | inl again ↦
      let (t, has, same) = Has-of_any (λ t. t == x) xs again in
      rw again (text_set-Has a xs (subst (λ u. Has u xs) ((eq_iff t x).0 same ∙ sym e) has))
  | inr new ↦ rw new (inl e)
]

module _ {A : Type 0} (key : A → String) where
  unfoldable pub index : Dict A → List A → Dict A
  index d [] = d
  index d (x ∷ xs) = index (put d (key x) x) xs

  -- What an index has under a key is an element with this key.
  pub index-Has :
      (d : Dict A) (xs : List A) (k : String) (a : A)
      → get (index d xs) k ≡ some a
      → (Has a xs × (key a ≡ k)) ⊎ (get d k ≡ some a)
  unfolding index
  index-Has d [] k a h = inr h
  index-Has d (x ∷ xs) k a h = elim (index-Has (put d (key x) x) xs k a h) [
    | inl found ↦ inl (inr found.0, found.1)
    | inr before ↦ elim (Bool-cases (key x == k)) [
      | inl e ↦
          let same = some-injective x a (sym (get-put d (key x) k x ∙ rw e refl) ∙ before) in
          inl (inl (sym same), sym (ap key same) ∙ (eq_iff (key x) k).0 e)
      | inr e ↦ inr (sym (get-put d (key x) k x ∙ rw e refl) ∙ before)
    ]
  ]

  index-keeps :
      (d : Dict A) (xs : List A) (k : String) (a : A)
      → get d k ≡ some a
      → (b : A) × (get (index d xs) k ≡ some b)
  unfolding index
  index-keeps d [] k a h = (a, h)
  index-keeps d (x ∷ xs) k a h = elim (Bool-cases (key x == k)) [
    | inl e ↦ index-keeps (put d (key x) x) xs k x (get-put d (key x) k x ∙ rw e refl)
    | inr e ↦ index-keeps (put d (key x) x) xs k a (get-put d (key x) k x ∙ rw e h)
  ]

  -- Every element's key is in the index.
  pub Has-index :
      (d : Dict A) (xs : List A) (a : A) → Has a xs → (b : A) × (get (index d xs) (key a) ≡ some b)
  unfolding index
  Has-index d [] a h = absurd h
  Has-index d (x ∷ xs) a (inl e) =
      index-keeps (put d (key x) x) xs (key a) x
        (get-put d (key x) (key a) x ∙ rw ((eq_iff (key x) (key a)).1 (ap key (sym e))) refl)
  Has-index d (x ∷ xs) a (inr later) = Has-index (put d (key x) x) xs a later

  -- What the whole index has under a key is an element with this key.
  pub index_found :
      (xs : List A) (k : String) (a : A) → get (index [] xs) k ≡ some a → Has a xs × (key a ≡ k)
  unfolding get
  index_found xs k a h = elim (index-Has [] xs k a h) [ inl found ↦ found | inr never ↦ cc ]

pub Has-of_get : {V : Type 0} (d : Dict V) (k : String) (v : V) → get d k ≡ some v → Has (k, v) d
unfolding get
Has-of_get [] k v h = cc
Has-of_get ((j, w) ∷ d) k v h = elim (Bool-cases (j == k)) [
  | inl e ↦ inl (
      let same : w ≡ v = some-injective w v (rw e at h) in
      let j_is : j ≡ k = (eq_iff j k).0 e in cc)
  | inr e ↦ inr (Has-of_get d k v (rw e at h))
]
