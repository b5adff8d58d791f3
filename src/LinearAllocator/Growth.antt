-- ===== src/LinearAllocator/Growth.antt =====
-- The rounds of `alloc` in src/linearAllocator.cpp, and the requests that do not fit a chunk.
use async_profiler.Base.{
  ℕ, zero, suc, ◌+◌, ◌^◌, ◌≤◌, ◌<◌, ◌≡◌, ◌≢◌, inl, inr, some, ◌∷◌, Option-cases, arith,
}
use async_profiler.Os.{Os}
use async_profiler.LinearAllocator.{
  LinearAllocator, chunk_header, pointer, stuck, get_next_chunk, alloc,
}
use async_profiler.LinearAllocator.Bounds.{IsValid, get_next_chunk-IsValid}

module _ (os : Os) where
  open os use {State, safe_alloc, safe_free}

  fits_at_once :
      (fuel : ℕ) (a : LinearAllocator) (size : ℕ) (s : State)
      → size < 2 ^ 62
      → a.chunk_size < 2 ^ 62
      → a.tail.offs + size ≤ a.chunk_size
      → (alloc os (suc fuel) a size s).0 ≡ pointer (a.tail.address + a.tail.offs)
  unfolding alloc
  fits_at_once fuel a size s h small fits = ground arith

  get_next_chunk_keeps :
      (a : LinearAllocator) (s : State) {b : LinearAllocator} {s' : State}
      → get_next_chunk os a s ≡ (some b, s')
      → (b.chunk_size ≡ a.chunk_size) × (b.previous ≡ a.tail ∷ a.previous)
  unfolding get_next_chunk
  get_next_chunk_keeps a s e = ground arith

  -- A request that fits an empty chunk is settled within two rounds: by a block, or by the NULL of
  -- a refused mapping.
  pub alloc-ne-stuck :
      (fuel : ℕ) (a : LinearAllocator) (size : ℕ) (s : State)
      → IsValid a
      → chunk_header + size ≤ a.chunk_size
      → (alloc os (suc (suc fuel)) a size s).0 ≢ stuck
  unfolding alloc
  alloc-ne-stuck fuel a size s v h = elim (Option-cases (get_next_chunk os a s).0) [
    | inl stop ↦ ground arith
    | inr (b, go) ↦ ground (
      arith,
      get_next_chunk-IsValid os a s v,
      get_next_chunk_keeps a s {b = b} {s' = (get_next_chunk os a s).1},
      fits_at_once fuel b size (get_next_chunk os a s).1,
    )
  ]

  -- A request below 2 ^ 62 bytes that is larger than an empty chunk never gets a block, however many
  -- chunks the loop maps.
  pub alloc_oversize :
      (fuel : ℕ) (a : LinearAllocator) (size : ℕ) (s : State) (p : ℕ)
      → IsValid a
      → size < 2 ^ 62
      → a.chunk_size < chunk_header + size
      → (alloc os fuel a size s).0 ≢ pointer p
  unfolding alloc
  alloc_oversize zero a size s p v h big = λ e. cc
  alloc_oversize (suc fuel) a size s p v h big = elim (Option-cases (get_next_chunk os a s).0) [
    | inl stop ↦ ground arith
    | inr (b, go) ↦ ground (
      arith,
      get_next_chunk-IsValid os a s v,
      get_next_chunk_keeps a s {b = b} {s' = (get_next_chunk os a s).1},
      alloc_oversize fuel b size (get_next_chunk os a s).1 p,
    )
  ]
