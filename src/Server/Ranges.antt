-- ===== src/Server/Ranges.antt =====
-- sync_store.py: the byte ranges that a download may read.
use mathlib.Core.Path.{subst}
use personal_knowledge_base.Base.{
  ℕ, ◌+◌, ◌≤◌, ◌≡◌, Bool, true, ◌&&◌, Option, none, some, List, [], ◌∷◌, arith, All, any, ltb, leb,
  nat_eq, if◌then◌else◌, Bool-cases, inl, inr,
}
use personal_knowledge_base.Base.Exec.{
  Result, ok, raise, raise_if, ◌>>◌, traverse, traverse-All, ok-injective, raise-ne-ok, store_error,
}

pub record DownloadRange : Type 0 where
  pub offset : ℕ
  pub size : ℕ

unfoldable pub check_range : (encrypted_size : ℕ) → DownloadRange → Result DownloadRange
check_range encrypted_size r = do
  raise_if (nat_eq r.size 0) (store_error "invalid_request" "size must be a positive integer")
  raise_if (ltb encrypted_size (r.offset + r.size))
      (store_error "invalid_range" "download range exceeds blob encrypted_size")
  ok r

unfoldable pub resolve_given :
    (encrypted_size : ℕ) → List DownloadRange → Result (List DownloadRange)
unfolding check_range
resolve_given encrypted_size [] =
    raise (store_error "invalid_range" "ranges must be a non-empty list when provided")
resolve_given encrypted_size (r ∷ rest) = traverse (check_range encrypted_size) (r ∷ rest)

-- An empty blob has no range. Without a list the range is the whole blob.
unfoldable pub resolve_download_ranges :
    Option (List DownloadRange) → (encrypted_size : ℕ) → Result (List DownloadRange)
unfolding resolve_given
resolve_download_ranges ranges_payload encrypted_size =
    if nat_eq encrypted_size 0 then ok [] else elim ranges_payload [
      | none ↦ ok (record { offset = 0; size = encrypted_size } ∷ [])
      | some ranges ↦ resolve_given encrypted_size ranges
    ]

-- The range lies inside one that is allowed.
abbrev pub covers : (offset size : ℕ) → DownloadRange → Bool
covers offset size r = leb r.offset offset && leb (offset + size) (r.offset + r.size)

unfoldable pub range_is_authorized : List DownloadRange → (offset size : ℕ) → Bool
range_is_authorized ranges offset size = any (covers offset size) ranges

abbrev pub IsInside : ℕ → DownloadRange → Type 0
IsInside encrypted_size r = r.offset + r.size ≤ encrypted_size

check_range-IsInside :
    (total : ℕ) (r s : DownloadRange) → check_range total r ≡ ok s → IsInside total s
unfolding check_range
check_range-IsInside total r s e = ground arith

resolve-IsInside :
    (total : ℕ) (payload : Option (List DownloadRange)) (ranges : List DownloadRange)
    → resolve_download_ranges payload total ≡ ok ranges
    → All (IsInside total) ranges
unfolding resolve_download_ranges resolve_given
resolve-IsInside total none ranges e = elim (Bool-cases (nat_eq total 0)) [
  | inl z ↦ subst (All (IsInside total)) (ok-injective (rw z at e)) tt
  | inr z ↦ subst (All (IsInside total)) (ok-injective (rw z at e)) (omega arith, tt)
]
resolve-IsInside total (some []) ranges e = elim (Bool-cases (nat_eq total 0)) [
  | inl z ↦ subst (All (IsInside total)) (ok-injective (rw z at e)) tt
  | inr z ↦ absurd (let e' = rw z at e in raise-ne-ok e')
]
resolve-IsInside total (some (r ∷ rest)) ranges e = elim (Bool-cases (nat_eq total 0)) [
  | inl z ↦ subst (All (IsInside total)) (ok-injective (rw z at e)) tt
  | inr z ↦
      traverse-All (check_range total) (IsInside total) (check_range-IsInside total) (r ∷ rest)
        ranges (rw z at e)
]

authorized-le :
    (total : ℕ) (ranges : List DownloadRange) (offset size : ℕ)
    → All (IsInside total) ranges
    → range_is_authorized ranges offset size ≡ true
    → offset + size ≤ total
unfolding range_is_authorized
authorized-le total [] offset size h e = absurd (ground arith)
authorized-le total (r ∷ rest) offset size h e = elim (Bool-cases (covers offset size r)) [
  | inl c ↦ ground arith
  | inr c ↦ authorized-le total rest offset size h.1 (rw c at e)
]

-- A read that the server authorizes, from ranges that it granted itself, lies inside the blob.
pub authorized-IsInside :
    (payload : Option (List DownloadRange)) (encrypted_size : ℕ) (ranges : List DownloadRange)
    (offset size : ℕ)
    → resolve_download_ranges payload encrypted_size ≡ ok ranges
    → range_is_authorized ranges offset size ≡ true
    → offset + size ≤ encrypted_size
authorized-IsInside payload total ranges offset size e h =
    authorized-le total ranges offset size (resolve-IsInside total payload ranges e) h
