-- ===== src/Base/Dict.antt =====
-- Python's `dict` with text keys, as the list of its items in insertion order.
use mathlib.Core.Logic.{◌≢◌, inl, inr}
use personal_knowledge_base.Base.Tests.{Bool-cases}
use mathlib.Core.Path.{◌≡◌, refl}
use mathlib.Core.Option.{Option, none, some}
use mathlib.Core.List.{List, [], ◌∷◌}
use native.Mathlib.Omega.{arith}
use Prim.Native.String.{String}
use text.Mathlib.Text.{◌==◌}
use text.Mathlib.TextEquality.{eq_iff}
use personal_knowledge_base.Base.Tests.{if◌then◌else◌}

abbrev pub Dict {ℓ} : Type ℓ → Type ℓ
Dict V = List (String × V)

module _ {ℓ} {V : Type ℓ} where
  -- `d.get(k)`
  unfoldable pub get : Dict V → String → Option V
  get [] k = none
  get ((j, v) ∷ d) k = if j == k then some v else get d k

  -- `d[k] = v`: a known key keeps its place, a new one comes last.
  unfoldable pub put : Dict V → String → V → Dict V
  put [] k v = (k, v) ∷ []
  put ((j, w) ∷ d) k v = if j == k then (j, v) ∷ d else (j, w) ∷ put d k v

  -- `d.pop(k, None)` and `DELETE ... WHERE key = ?`
  unfoldable pub delete : Dict V → String → Dict V
  delete [] k = []
  delete ((j, w) ∷ d) k = let rest = delete d k in if j == k then rest else (j, w) ∷ rest

  pub get-put :
      (d : Dict V) (written read : String) (value : V)
      → get (put d written value) read ≡ (if written == read then some value else get d read)
  unfolding get put
  get-put [] written read value = refl
  get-put ((k, w) ∷ d) written read value =
      ground
        (arith, eq_iff k read, eq_iff written read, eq_iff k written, get-put d written read value)

  pub get-delete :
      (d : Dict V) (gone read : String)
      → get (delete d gone) read ≡ (if gone == read then none else get d read)
  unfolding get delete
  get-delete [] gone read = ground arith
  get-delete ((k, w) ∷ d) gone read =
      ground (arith, eq_iff gone read, eq_iff k read, eq_iff k gone, get-delete d gone read)

pub get-put_same : {V : Type 0} (d : Dict V) (k : String) (v : V) → get (put d k v) k ≡ some v
get-put_same d k v = ground (arith, get-put d k k v, eq_iff k k)

pub get-put_other :
    {V : Type 0} (d : Dict V) (k j : String) (v : V) → k ≢ j → get (put d k v) j ≡ get d j
get-put_other d k j v ne = elim (Bool-cases (k == j)) [
  | inl e ↦ absurd (ne ((eq_iff k j).0 e))
  | inr e ↦ ground (arith, get-put d k j v)
]

pub get-delete_same : {V : Type 0} (d : Dict V) (k : String) → get (delete d k) k ≡ none
get-delete_same d k = ground (arith, get-delete d k k, eq_iff k k)

pub ruleset dict_laws = (get-put, get-delete)
