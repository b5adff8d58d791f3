-- ===== src/LinearAllocator/Tests.antt =====
-- Runs of the allocator on concrete inputs.
use async_profiler.Base.{◌≡◌, ◌≢◌, refl, [], ◌∷◌, none, arith}
use async_profiler.Os.{granting}
use async_profiler.LinearAllocator.{
  LinearAllocator, alloc, clear, pointer, stuck, bump, get_next_chunk, allocate_chunk,
  reserve_chunk,
}
use async_profiler.LinearAllocator.Bounds.{IsValid, Allocates, alloc-Allocates}
use async_profiler.LinearAllocator.Growth.{alloc-ne-stuck}
use async_profiler.LinearAllocator.Clearing.{Releases, clear-Releases}

-- Two chunks of 1000 bytes, the second one filled up to byte 600.
abbrev two_chunks : LinearAllocator
two_chunks = record {
  chunk_size = 1000;
  used_memory = 2000;
  tail = record { address = 5000; offs = 600 };
  previous = record { address = 3000; offs = 990 } ∷ [];
  reserve = none;
}

two_chunks-IsValid : IsValid two_chunks
two_chunks-IsValid = record {
  roomy = omega arith;
  small = omega arith;
  above_header = omega arith;
  within = omega arith;
  fresh = tt;
  accounted = refl;
}

alloc-Allocates_example : Allocates granting 500 (alloc granting 3 two_chunks 500 9000)
alloc-Allocates_example =
    alloc-Allocates granting 3 two_chunks 500 9000 two_chunks-IsValid (omega arith)

alloc-ne-stuck_example : (alloc granting 2 two_chunks 500 9000).0 ≢ stuck
alloc-ne-stuck_example =
    alloc-ne-stuck granting 0 two_chunks 500 9000 two_chunks-IsValid (omega arith)

clear-Releases_example : Releases granting two_chunks 9000 (clear granting two_chunks 9000)
clear-Releases_example = clear-Releases granting two_chunks 9000 two_chunks-IsValid

-- A block of 500 bytes does not fit the second chunk: a third one is mapped.
alloc_next_chunk : (alloc granting 2 two_chunks 500 9000).0 ≡ pointer 9072
unfolding alloc bump get_next_chunk allocate_chunk reserve_chunk
alloc_next_chunk = refl
