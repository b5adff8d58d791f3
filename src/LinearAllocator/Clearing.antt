-- ===== src/LinearAllocator/Clearing.antt =====
-- What `LinearAllocator::clear` of src/linearAllocator.cpp frees and what it leaves.
use async_profiler.Base.{ℕ, ◌≡◌, refl, List, [], ◌∷◌, Option, none, some, arith, ap, ◌∙◌}
use async_profiler.Os.{Os}
use async_profiler.LinearAllocator.{
  Chunk, LinearAllocator, chunk_header, clear, free_chunk, free_tail, free_reserve,
}
use async_profiler.LinearAllocator.Bounds.{IsValid}

-- The first chunk of the chain, and the chunks that were added behind it, latest first.
abbrev pub first_chunk : Chunk → List Chunk → Chunk
first_chunk c [] = c
first_chunk c (p ∷ ps) = first_chunk p ps

abbrev pub later_chunks : Chunk → List Chunk → List Chunk
later_chunks c [] = []
later_chunks c (p ∷ ps) = c ∷ later_chunks p ps

abbrev pub reserved : Option Chunk → List Chunk
reserved none = []
reserved (some r) = r ∷ []

module _ (os : Os) where
  open os use {State, safe_free}

  abbrev pub freed : ℕ → List Chunk → State → State
  freed size [] s = s
  freed size (c ∷ cs) s = freed size cs (safe_free s c.address size)

  free_tail_lem :
      (size : ℕ) (c : Chunk) (ps : List Chunk) (s : State)
      → free_tail os size c ps s ≡ (first_chunk c ps, freed size (later_chunks c ps) s)
  unfolding free_tail free_chunk
  free_tail_lem size c [] s = refl
  free_tail_lem size c (p ∷ ps) s = free_tail_lem size p ps (safe_free s c.address size)

  free_reserve_lem :
      (size : ℕ) (r : Option Chunk) (s : State)
      → free_reserve os size r s ≡ freed size (reserved r) s
  unfolding free_reserve free_chunk
  free_reserve_lem size none s = refl
  free_reserve_lem size (some r) s = refl

  abbrev pub Releases : LinearAllocator → State → LinearAllocator × State → Type 0
  Releases a s (b, s') =
      IsValid b
      × (b.chunk_size ≡ a.chunk_size)
      × (b.tail.address ≡ (first_chunk a.tail a.previous).address)
      × (b.tail.offs ≡ chunk_header)
      × (b.previous ≡ [])
      × (b.reserve ≡ none)
      × (b.used_memory ≡ a.chunk_size)
      × (s'
          ≡ freed a.chunk_size (later_chunks a.tail a.previous)
              (freed a.chunk_size (reserved a.reserve) s))

  -- `clear` of a valid allocator gives back to the system the reserved chunk, if there is one, and
  -- then every chunk but the first of the chain, each with the size of a chunk. It goes back to the
  -- first chunk, empty, also if that is the only one, accounts for that one alone, and is valid.
  pub clear-Releases : (a : LinearAllocator) (s : State) → IsValid a → Releases a s (clear os a s)
  unfolding clear
  clear-Releases a s v =
      let s₁ : State = free_reserve os a.chunk_size a.reserve s in
      let e = free_tail_lem a.chunk_size a.tail a.previous s₁ in
      let valid : IsValid (clear os a s).0 = record {
        roomy = v.roomy;
        small = v.small;
        above_header = omega arith;
        within = v.roomy;
        fresh = tt;
        accounted = omega (arith, v.small);
      } in
      (
        valid,
        refl,
        ap (λ r. r.0.address) e,
        refl,
        refl,
        refl,
        refl,
        ap (λ r. r.1) e
            ∙ ap (freed a.chunk_size (later_chunks a.tail a.previous))
                (free_reserve_lem a.chunk_size a.reserve s),
      )
