-- ===== src/LinearAllocator.antt =====
-- src/linearAllocator.cpp and src/linearAllocator.h: the chunked bump allocator, run by one thread.
-- `_tail` with the chunks behind its `prev` links is `tail` and `previous`. `_reserve` either is
-- `_tail` (`reserve` is `none`) or the one chunk whose `prev` is `_tail`. Each CAS succeeds.
pub mod Bounds
pub mod Growth
pub mod Clearing
mod Tests
use async_profiler.Base.{
  ℕ, zero, suc, ◌+◌, ◌-◌, ◌*◌, ◌/◌, ◌%◌, ◌^◌, Bool, List, [], ◌∷◌, Option, none, some, ltb, leb,
  if◌then◌else◌,
}
use async_profiler.Os.{Os}

pub record Chunk : Type 0 where
  pub address : ℕ
  pub offs : ℕ

-- sizeof(Chunk): two words and 56 bytes of padding.
abbrev pub chunk_header : ℕ
chunk_header = 72

pub record LinearAllocator : Type 0 where
  pub chunk_size : ℕ
  pub used_memory : ℕ
  pub tail : Chunk
  pub previous : List Chunk
  pub reserve : Option Chunk

-- What a run of `alloc` comes to. `stuck` is no value of the code: the fuel ran out.
pub data Alloc : Type 0 where
  pointer : ℕ → Alloc
  null : Alloc
  stuck : Alloc

module _ (os : Os) where
  open os use {State, safe_alloc, safe_free}

  pub allocate_chunk : ℕ → State → Option Chunk × State
  allocate_chunk size s =
      let (p, s') = safe_alloc s size in
      elim p [
        | none ↦ (none, s')
        | some address ↦ (some (record { address = address; offs = chunk_header }), s')
      ]

  -- When the first chunk is refused the code goes on with a null `_tail`, which faults on its first
  -- use; that allocator is `none` here.
  pub new : ℕ → State → Option LinearAllocator × State
  unfolding allocate_chunk
  new size s =
      let (c, s') = allocate_chunk size s in
      elim c [
        | none ↦ (none, s')
        | some chunk ↦ (
          some (record {
            chunk_size = size;
            used_memory = size;
            tail = chunk;
            previous = [];
            reserve = none;
          }),
          s',
        )
      ]

  pub free_chunk : ℕ → Chunk → State → State
  free_chunk size c s = safe_free s c.address size

  pub free_reserve : ℕ → Option Chunk → State → State
  unfolding free_chunk
  free_reserve size none s = s
  free_reserve size (some r) s = free_chunk size r s

  -- The loop of `clear`: the chunks before the last one of the chain are freed.
  pub free_tail : ℕ → Chunk → List Chunk → State → Chunk × State
  unfolding free_chunk
  free_tail size c [] s = (c, s)
  free_tail size c (p ∷ ps) s = free_tail size p ps (free_chunk size c s)

  pub clear : LinearAllocator → State → LinearAllocator × State
  unfolding free_reserve free_tail
  clear a s =
      let (first, s') =
        free_tail a.chunk_size a.tail a.previous (free_reserve a.chunk_size a.reserve s) in
      (
        record {
          chunk_size = a.chunk_size;
          used_memory = a.chunk_size;
          tail = record first { offs = chunk_header };
          previous = [];
          reserve = none;
        },
        s',
      )

  -- `reserveChunk(_tail)`: a reserve that is there already makes the CAS fail.
  pub reserve_chunk : LinearAllocator → State → LinearAllocator × State
  unfolding allocate_chunk free_chunk
  reserve_chunk a s =
      let (c, s') = allocate_chunk a.chunk_size s in
      elim c [
        | none ↦ (a, s')
        | some fresh ↦ elim a.reserve [
          | none ↦ (record a { reserve = some fresh }, s')
          | some _ ↦ (a, free_chunk a.chunk_size fresh s')
        ]
      ]

  -- The CAS on `_tail` and the accounting at the end of `getNextChunk`.
  abbrev pub switch_to : LinearAllocator → Chunk → LinearAllocator
  switch_to a c = record a {
    used_memory = (a.used_memory + a.chunk_size) % 2 ^ 64;
    tail = c;
    previous = a.tail ∷ a.previous;
    reserve = none;
  }

  pub get_next_chunk : LinearAllocator → State → Option LinearAllocator × State
  unfolding allocate_chunk
  get_next_chunk a s = elim a.reserve [
    | some r ↦ (some (switch_to a r), s)
    | none ↦
        let (c, s') = allocate_chunk a.chunk_size s in
        elim c [ none ↦ (none, s') | some fresh ↦ (some (switch_to a fresh), s') ]
  ]

  -- `_chunk_size / 2 - offs < size` in unsigned 64-bit arithmetic.
  abbrev pub stepped_over_middle : ℕ → ℕ → ℕ → Bool
  stepped_over_middle chunk_size offs size = ltb ((chunk_size / 2 + 2 ^ 64 - offs) % 2 ^ 64) size

  -- The fast path, once `offs + size <= _chunk_size` holds.
  pub bump : LinearAllocator → ℕ → State → LinearAllocator × State
  unfolding reserve_chunk
  bump a size s =
      let offs = a.tail.offs in
      let moved = record a { tail = record (a.tail) { offs = (offs + size) % 2 ^ 64 } } in
      if stepped_over_middle a.chunk_size offs size then reserve_chunk moved s else (moved, s)

  pub alloc : ℕ → LinearAllocator → ℕ → State → Alloc × LinearAllocator × State
  unfolding bump get_next_chunk
  alloc zero a size s = (stuck, a, s)
  alloc (suc fuel) a size s =
      let fits = leb ((a.tail.offs + size) % 2 ^ 64) a.chunk_size in
      let (a₁, s₁) = bump a size s in
      let found : Alloc × LinearAllocator × State =
        (pointer (a.tail.address + a.tail.offs), a₁, s₁) in
      let (next, s₂) = get_next_chunk a s in
      let more : Alloc × LinearAllocator × State = elim next [
        | none ↦ (null, a, s₂)
        | some a₂ ↦ alloc fuel a₂ size s₂
      ] in
      if fits then found else more
