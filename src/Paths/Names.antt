-- ===== src/Paths/Names.antt =====
-- paths.py: `_next_available_path` and the moves that use it.
use Prim.Native.Char.{code}
use Prim.Native.String.{String, [], ◌∷◌, ◌++◌}
use mathlib.Core.Bool.{Bool, ◌||◌}
use mathlib.Core.Option.{Option, none, some}
use mathlib.Core.List.{List}
use text.Mathlib.Text.{◌==◌}
use personal_knowledge_base.Base.{ℕ, zero, suc, ◌+◌, nat_eq, any, length, if◌then◌else◌}
use personal_knowledge_base.Paths.Decimal.{decimal}

-- A name before its last dot, and from the dot on.
unfoldable pub split_dot : String → Option (String × String)
split_dot [] = none
split_dot (c ∷ s) = elim (split_dot s) [
  | some (stem, suffix) ↦ some (c ∷ stem, suffix)
  | none ↦ if nat_eq (code c) b'.' then some ([], c ∷ s) else none
]

-- `(path.stem, path.suffix)`: a dot that begins or ends the name begins no suffix.
unfoldable pub stem_suffix : String → String × String
unfolding split_dot
stem_suffix name = elim (split_dot name) [
  | none ↦ (name, [])
  | some (stem, suffix) ↦ if (stem == "") || (suffix == ".") then (name, []) else (stem, suffix)
]

-- `f"{stem} {counter}{suffix}"`
unfoldable pub numbered : String × String → ℕ → String
unfolding decimal
numbered parts counter = parts.0 ++ (" " ++ (decimal counter ++ parts.1))

abbrev pub is_taken : List String → String → Bool
is_taken taken name = any (λ other. other == name) taken

-- The `while True` loop, with fuel. Without fuel the last candidate is returned.
unfoldable pub search_free : ℕ → (ℕ → String) → ℕ → List String → String
search_free zero candidate counter taken = candidate counter
search_free (suc fuel) candidate counter taken =
    let later = search_free fuel candidate (counter + 1) taken in
    if is_taken taken (candidate counter) then later else candidate counter

unfoldable pub next_available_path : List String → String → String
unfolding stem_suffix numbered search_free
next_available_path taken name =
    if is_taken taken name
    then search_free (length taken) (numbered (stem_suffix name)) 2 taken
    else name

-- `path.name`: what follows the last slash.
unfoldable pub last_segment : String → String → String
last_segment [] best = best
last_segment (c ∷ s) best = last_segment s (if nat_eq (code c) b'/' then s else best)

unfoldable pub file_name : String → String
unfolding last_segment
file_name path = last_segment path path
