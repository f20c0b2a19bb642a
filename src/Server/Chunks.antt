-- ===== src/Server/Chunks.antt =====
-- sync_store.py: `_blob_chunks`, which cuts a blob for a resumable upload.
use personal_knowledge_base.Base.{
  ℕ, zero, suc, ◌+◌, ◌-◌, ◌≤◌, ◌<◌, String, ◌≡◌, ◌⊎◌, refl, false, List, [], ◌∷◌, arith, All, ltb,
  leb, nat_eq, if◌then◌else◌, Bool-cases, inl, inr,
}
use personal_knowledge_base.Base.Exec.{Result, ok, raise, raise_if, ◌>>◌, store_error}

pub record BlobChunk : Type 0 where
  pub chunk_id : String
  pub offset : ℕ
  pub size : ℕ

-- `name` stands for the digest of the text `f"{blob_id}:{offset}:{size}"`.
module _ (name : String → ℕ → ℕ → String) (blob_id : String) where
  abbrev chunk : ℕ → ℕ → BlobChunk
  chunk offset size = record { chunk_id = name blob_id offset size; offset = offset; size = size }

  abbrev chunk_size_at : (encrypted_size chunk_size offset : ℕ) → ℕ
  chunk_size_at encrypted_size chunk_size offset =
      if leb chunk_size (encrypted_size - offset) then chunk_size else encrypted_size - offset

  -- The `while` loop, with fuel.
  unfoldable pub chunk_loop : (fuel : ℕ) → (encrypted_size chunk_size offset : ℕ) → List BlobChunk
  chunk_loop zero encrypted_size chunk_size offset = []
  chunk_loop (suc fuel) encrypted_size chunk_size offset =
      let size = chunk_size_at encrypted_size chunk_size offset in
      let rest = chunk_loop fuel encrypted_size chunk_size (offset + size) in
      if ltb offset encrypted_size then chunk offset size ∷ rest else []

  -- A round cuts one byte or more, so that the size is fuel enough.
  unfoldable pub blob_chunks : (encrypted_size chunk_size : ℕ) → Result (List BlobChunk)
  unfolding chunk_loop
  blob_chunks encrypted_size chunk_size = do
    raise_if (nat_eq chunk_size 0)
        (store_error "invalid_request" "chunk_size must be a positive integer")
    if nat_eq encrypted_size 0
        then ok (chunk 0 0 ∷ [])
        else ok (chunk_loop encrypted_size encrypted_size chunk_size 0)

-- The chunks follow one another from one offset to another.
abbrev pub Tiles : ℕ → ℕ → List BlobChunk → Type 0
Tiles from to [] = from ≡ to
Tiles from to (c ∷ rest) = (c.offset ≡ from) × Tiles (from + c.size) to rest

module _ (name : String → ℕ → ℕ → String) (blob_id : String) where
  chunk_loop-Tiles :
      (fuel total size offset : ℕ)
      → 0 < size
      → offset ≤ total
      → total ≤ offset + fuel
      → Tiles offset total (chunk_loop name blob_id fuel total size offset)
        × All (λ c. c.size ≤ size) (chunk_loop name blob_id fuel total size offset)
  unfolding chunk_loop
  chunk_loop-Tiles zero total size offset pos le enough = (omega arith, tt)
  chunk_loop-Tiles (suc fuel) total size offset pos le enough =
      elim (Bool-cases (ltb offset total)) [
        | inl more ↦
            let step = chunk_size_at name blob_id total size offset in
            let rest =
              chunk_loop-Tiles fuel total size (offset + step) pos (ground arith) (ground arith) in
            rw more ((refl, rest.0), (ground arith, rest.1))
        | inr done ↦ rw done (ground arith, tt)
      ]

  -- A chunk size of 0 is refused. With any other a blob is cut into chunks that follow one another from
  -- its first byte to its end, and no chunk is larger than the chunk size.
  pub blob_chunks-Tiles :
      (encrypted_size chunk_size : ℕ)
      → ((chunk_size ≡ 0)
          × (blob_chunks name blob_id encrypted_size chunk_size
              ≡ raise (store_error "invalid_request" "chunk_size must be a positive integer")))
        ⊎ ((0 < chunk_size)
            × ((chunks : List BlobChunk) × (blob_chunks name blob_id encrypted_size chunk_size
                  ≡ ok chunks)
                × Tiles 0 encrypted_size chunks
                × All (λ c. c.size ≤ chunk_size) chunks))
  unfolding blob_chunks
  blob_chunks-Tiles total zero = inl (refl, refl)
  blob_chunks-Tiles total (suc n) =
      let given : nat_eq (suc n) 0 ≡ false = ground arith in
      inr (
        omega arith,
        elim (Bool-cases (nat_eq total 0)) [
          | inl empty ↦ (
            chunk name blob_id 0 0 ∷ [],
            rw (given, empty) refl,
            (refl, ground arith),
            (omega arith, tt),
          )
          | inr full ↦
              let cut =
                chunk_loop-Tiles total total (suc n) 0 (omega arith) (omega arith) (omega arith) in
              (chunk_loop name blob_id total total (suc n) 0, rw (given, full) refl, cut.0, cut.1)
        ],
      )
