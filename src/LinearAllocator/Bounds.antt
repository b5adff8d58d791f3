-- ===== src/LinearAllocator/Bounds.antt =====
-- Where the blocks of src/linearAllocator.cpp lie, and the accounting of its memory.
use async_profiler.Base.{
  ℕ, zero, suc, ◌+◌, ◌*◌, ◌%◌, ◌^◌, ◌≤◌, ◌<◌, ◌≡◌, Option, none, some, inl, inr, length,
  Option-cases, arith, ◌∙◌, ap,
}
use async_profiler.Os.{Os}
use async_profiler.LinearAllocator.{
  Chunk, LinearAllocator, chunk_header, Alloc, pointer, null, stuck, allocate_chunk, reserve_chunk,
  switch_to, get_next_chunk, bump, alloc,
}
use native.Mathlib.Nat.{mod-add-mod}

abbrev pub IsFresh : Option Chunk → Type 0
IsFresh none = Unit
IsFresh (some r) = r.offs ≡ chunk_header

-- The last three fields: the bump offset lies in the chunk, a reserved chunk is untouched, and the
-- accounted memory is that of the chunks in use.
pub record IsValid (a : LinearAllocator) : Type 0 where
  pub roomy : chunk_header ≤ a.chunk_size
  pub small : a.chunk_size < 2 ^ 62
  pub above_header : chunk_header ≤ a.tail.offs
  pub within : a.tail.offs ≤ a.chunk_size
  pub fresh : IsFresh a.reserve
  pub accounted : a.used_memory ≡ suc (length a.previous) * a.chunk_size % 2 ^ 64

account_next :
    (n c used : ℕ) → used ≡ suc n * c % 2 ^ 64 → (used + c) % 2 ^ 64 ≡ suc (suc n) * c % 2 ^ 64
account_next n c used e =
    ap (λ (u : ℕ). (u + c) % 2 ^ 64) e
    ∙ mod-add-mod (suc n * c) (2 ^ 64) c
    ∙ ap (λ (u : ℕ). u % 2 ^ 64) (grind arith)

-- A block of `size` bytes at `p` ends at the bump offset of the chunk that it is cut from.
pub record Cut (p size : ℕ) (b : LinearAllocator) : Type 0 where
  pub ends : p + size ≡ b.tail.address + b.tail.offs
  pub starts : b.tail.address + chunk_header ≤ p
  pub inside : b.tail.offs ≤ b.chunk_size

module _ (os : Os) where
  open os use {State, safe_alloc}

  switch_to-IsValid :
      (a : LinearAllocator) (c : Chunk)
      → IsValid a
      → c.offs ≡ chunk_header
      → IsValid (switch_to os a c)
  switch_to-IsValid a c v e = record {
    roomy = v.roomy;
    small = v.small;
    above_header = omega arith;
    within = omega (arith, v.roomy);
    fresh = tt;
    accounted = account_next (length a.previous) a.chunk_size a.used_memory v.accounted;
  }

  allocate_chunk-IsFresh : (n : ℕ) (s : State) → IsFresh (allocate_chunk os n s).0
  unfolding allocate_chunk
  allocate_chunk-IsFresh n s = ground arith

  abbrev pub NextIsValid : Option LinearAllocator → Type 0
  NextIsValid none = Unit
  NextIsValid (some b) = IsValid b × (b.tail.offs ≡ chunk_header)

  pub get_next_chunk-IsValid :
      (a : LinearAllocator) (s : State) → IsValid a → NextIsValid (get_next_chunk os a s).0
  unfolding get_next_chunk
  get_next_chunk-IsValid a s v = ground (
    arith,
    account_next (length a.previous) a.chunk_size a.used_memory v.accounted,
    allocate_chunk-IsFresh a.chunk_size s,
  )

  bump-IsValid :
      (a : LinearAllocator) (size : ℕ) (s : State)
      → IsValid a
      → size < 2 ^ 62
      → a.tail.offs + size ≤ a.chunk_size
      → IsValid (bump os a size s).0 × Cut (a.tail.address + a.tail.offs) size (bump os a size s).0
  unfolding bump reserve_chunk
  bump-IsValid a size s v h fits = ground (arith, allocate_chunk-IsFresh a.chunk_size s)

  -- What `alloc` leaves: a valid allocator, and a block cut from its current chunk.
  abbrev pub Allocates : ℕ → Alloc × LinearAllocator × State → Type 0
  Allocates size (pointer p, b, s) = IsValid b × Cut p size b
  Allocates size (null, b, s) = IsValid b × Unit
  Allocates size (stuck, b, s) = IsValid b × Unit

  -- For a request below 2 ^ 62 bytes: on every path `alloc` leaves a valid allocator (offset within
  -- the chunk, memory accounted), and a block that it hands out lies inside the current chunk: behind
  -- the header, up to the new offset.
  pub alloc-Allocates :
      (fuel : ℕ) (a : LinearAllocator) (size : ℕ) (s : State)
      → IsValid a
      → size < 2 ^ 62
      → Allocates size (alloc os fuel a size s)
  unfolding alloc
  alloc-Allocates zero a size s v h = ground arith
  alloc-Allocates (suc fuel) a size s v h = elim (Option-cases (get_next_chunk os a s).0) [
    | inl stop ↦ ground (arith, bump-IsValid a size s v h)
    | inr (a₂, go) ↦ ground (
      arith,
      bump-IsValid a size s v h,
      get_next_chunk-IsValid a s v,
      alloc-Allocates fuel a₂ size (get_next_chunk os a s).1,
    )
  ]
