-- ===== src/Base/Exec.antt =====
-- Exceptions as values, and code that also changes a state. What was written before an exception
-- stays written, as in the program.
use Prim.Native.Nat.{ℕ}
use Prim.Native.String.{String}
use mathlib.Core.Path.{◌≡◌, refl, sym, ◌∙◌, ap, subst}
use mathlib.Core.Logic.{◌≢◌, inl, inr}
use mathlib.Core.Bool.{Bool, true, false}
use mathlib.Core.List.{List, [], ◌∷◌, map}
use personal_knowledge_base.Base.Lists.{All, Has}
use mathlib.Core.Option.{Option, none, some}

-- A message, without the values that it quotes, and those values.
pub data Error : Type 0 where
  value_error : String → List String → Error
  key_error : String → List String → Error
  -- The server's `SyncStoreError`, with its code, and its `CommitConflict`, with the head that it quotes.
  store_error : (code message : String) → Error
  commit_conflict : (code : String) (head : ℕ) (summary : Option String) → Error

-- What a Python function gives: an exception, or a value.
pub data Result {ℓ} (V : Type ℓ) : Type ℓ where
  raise : Error → Result V
  ok : V → Result V

-- The rest of a function runs on the value, and an exception leaves it.
abbrev pub after {ℓ κ} : {V : Type ℓ} {W : Type κ} → (V → Result W) → Result V → Result W
after rest (raise e) = raise e
after rest (ok v) = rest v

infixl 5 ◌>>=◌ ◌>>◌
abbrev pub ◌>>=◌ {ℓ κ} : {V : Type ℓ} {W : Type κ} → Result V → (V → Result W) → Result W
first >>= rest = after rest first

abbrev pub ◌>>◌ {ℓ} : {W : Type ℓ} → Result (Unit {0}) → Result W → Result W
check >> rest = check >>= (λ _. rest)

-- `if test: raise error`
abbrev pub raise_if : Bool → Error → Result (Unit {0})
raise_if true e = raise e
raise_if false e = ok tt

-- `if value is None: raise error`
abbrev pub require {ℓ} : {A : Type ℓ} → Option A → Error → Result A
require none e = raise e
require (some a) e = ok a

-- If a function returns, its first step returned a value, from which the rest returned.
pub >>=_inv {ℓ κ} :
    {V : Type ℓ} {W : Type κ} (first : Result V) (rest : V → Result W) {w : W}
    → (first >>= rest) ≡ ok w
    → (v : V) × (first ≡ ok v) × (rest v ≡ ok w)
>>=_inv (ok v) rest returned = (v, refl, returned)
>>=_inv (raise e) rest returned = cc

pub raise_if-eq-ok : (b : Bool) (e : Error) → raise_if b e ≡ ok tt → b ≡ false
raise_if-eq-ok true e h = cc
raise_if-eq-ok false e h = refl

pub raise-ne-ok {ℓ} : {A : Type ℓ} {x : Error} {a : A} → raise x ≢ ok a
raise-ne-ok e = cc

pub ok-injective {ℓ} : {A : Type ℓ} {a b : A} → ok a ≡ ok b → a ≡ b
ok-injective h = cc

-- `[f(x) for x in xs]`, where `f` may raise
module _ {A B : Type 0} where
  unfoldable pub traverse : (A → Result B) → List A → Result (List B)
  traverse f [] = ok []
  traverse f (x ∷ xs) = do y ← f x; ys ← traverse f xs; ok (y ∷ ys)

  -- Facts about each call hold of the whole list.
  pub traverse-map :
      {C : Type 0} (f : A → Result B) (g : B → C) (h : A → C)
      → ((x : A) (y : B) → f x ≡ ok y → g y ≡ h x)
      → (xs : List A) (ys : List B) → traverse f xs ≡ ok ys
      → map g ys ≡ map h xs
  unfolding traverse
  traverse-map f g h one [] ys e = rw (← (ok-injective e))
  traverse-map f g h one (x ∷ xs) ys e =
      let (y, first, after) = >>=_inv (f x) _ e in
      let (rest, more, end) = >>=_inv (traverse f xs) _ after in
      rw (← (ok-injective end)) (cc (one x y first, traverse-map f g h one xs rest more))

  pub traverse-All :
      (f : A → Result B) (P : B → Type 0)
      → ((x : A) (y : B) → f x ≡ ok y → P y)
      → (xs : List A) (ys : List B) → traverse f xs ≡ ok ys
      → All P ys
  unfolding traverse
  traverse-All f P one [] ys e = subst (All P) (ok-injective e) tt
  traverse-All f P one (x ∷ xs) ys e =
      let (y, first, after) = >>=_inv (f x) _ e in
      let (rest, more, end) = >>=_inv (traverse f xs) _ after in
      subst (All P) (ok-injective end) (one x y first, traverse-All f P one xs rest more)

  -- What stands in the list of the values is the value of an element, and every element has its value.
  pub Has-traverse :
      (f : A → Result B) (y : B) (xs : List A) (ys : List B)
      → traverse f xs ≡ ok ys
      → Has y ys
      → (x : A) × Has x xs × (f x ≡ ok y)
  unfolding traverse
  Has-traverse f y [] ys e h = absurd (subst (Has y) (sym (ok-injective e)) h)
  Has-traverse f y (x ∷ xs) ys e h =
      let (z, first, after) = >>=_inv (f x) _ e in
      let (rest, more, end) = >>=_inv (traverse f xs) _ after in
      elim (subst (Has y) (sym (ok-injective end)) h) [
        | inl same ↦ (x, inl refl, first ∙ ap ok (sym same))
        | inr later ↦
            (let (w, has, from) = Has-traverse f y xs rest more later in (w, inr has, from))
      ]

  pub traverse-Has :
      (f : A → Result B) (x : A) (xs : List A) (ys : List B)
      → traverse f xs ≡ ok ys
      → Has x xs
      → (y : B) × Has y ys × (f x ≡ ok y)
  unfolding traverse
  traverse-Has f x [] ys e h = absurd h
  traverse-Has f x (z ∷ xs) ys e h =
      let (y, first, after) = >>=_inv (f z) _ e in
      let (rest, more, end) = >>=_inv (traverse f xs) _ after in
      elim h [
        | inl same ↦ (y, subst (Has y) (ok-injective end) (inl refl), ap f same ∙ first)
        | inr later ↦
            let (w, has, from) = traverse-Has f x xs rest more later in
            (w, subst (Has w) (ok-injective end) (inr has), from)
      ]

pub require-eq : {A : Type 0} (o : Option A) (x : Error) {a : A} → require o x ≡ ok a → o ≡ some a
require-eq none x e = absurd (raise-ne-ok e)
require-eq (some b) x e = ap some (ok-injective e)
