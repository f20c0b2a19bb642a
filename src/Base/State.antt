-- ===== src/Base/State.antt =====
-- Code that may raise and changes a state. What was written before an exception stays written.
use mathlib.Core.Path.{◌≡◌, refl, ap}
use mathlib.Core.Bool.{Bool}
use mathlib.Core.Option.{Option}
use personal_knowledge_base.Base.Exec
use personal_knowledge_base.Base.Exec.{Result, ok, raise, Error}

abbrev pub Action : Type 0 → Type 0 → Type 0
Action S A = S → Result A × S

abbrev pub continue : {S A B : Type 0} → Result A → S → (A → Action S B) → Result B × S
continue (ok a) s f = f a s
continue (raise e) s f = (raise e, s)

infixl 5 ◌>>=◌ ◌>>◌
abbrev pub ◌>>=◌ : {S A B : Type 0} → Action S A → (A → Action S B) → Action S B
◌>>=◌ m f s = let r = m s in continue r.0 r.1 f

abbrev pub ◌>>◌ : {S B : Type 0} → Action S (Unit {0}) → Action S B → Action S B
m >> k = m >>= λ _. k

abbrev pub pure : {S A : Type 0} → A → Action S A
pure a s = (ok a, s)

-- A computation that only may raise.
abbrev pub lift : {S A : Type 0} → Result A → Action S A
lift r s = (r, s)

abbrev pub raise_if : {S : Type 0} → Bool → Error → Action S (Unit {0})
raise_if b e = lift (Exec.raise_if b e)

abbrev pub require : {S A : Type 0} → Option A → Error → Action S A
require o e = lift (Exec.require o e)

abbrev pub gets : {S A : Type 0} → (S → A) → Action S A
gets f s = (ok (f s), s)

abbrev pub modify : {S : Type 0} → (S → S) → Action S (Unit {0})
modify f s = (ok tt, f s)

-- If code returns, its first step returned a value, from which the rest returned.
pub continue_inv :
    {S A B : Type 0} (r : Result A) (s : S) (f : A → Action S B) {b : B} {s' : S}
    → continue r s f ≡ (ok b, s')
    → (a : A) × (r ≡ ok a) × (f a s ≡ (ok b, s'))
continue_inv (ok a) s f e = (a, refl, e)
continue_inv (raise x) s f e = absurd (let q : raise x ≡ ok _ = ap (λ p. p.0) e in cc)
