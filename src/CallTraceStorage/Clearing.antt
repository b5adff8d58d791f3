-- ===== src/CallTraceStorage/Clearing.antt =====
-- What `CallTraceStorage::clear` of src/callTraceStorage.cpp frees and what it leaves.
use async_profiler.Base.{ℕ, ◌+◌, ◌%◌, ◌≡◌, refl, ◌∙◌, ap, List, [], ◌∷◌, false, arith}
use async_profiler.LinearAllocator
use async_profiler.LinearAllocator.Clearing
use async_profiler.Os.{Os}
use async_profiler.CallTraceStorage.{
  CallTraceStorage, LongHashTable, initial_capacity, u64_mod, get_size, capacity, used_memory,
}
use async_profiler.CallTraceStorage.Collect.{
  clear, clear_table, destroy, destroy_newer, limit_of, is_sampled,
}
use async_profiler.CallTraceStorage.Ids.{IsChain}
use async_profiler.CallTraceStorage.Invariant.{IsSound}

-- The first table of the chain, and those that were added behind it, latest first.
abbrev pub first_table : LongHashTable → List LongHashTable → LongHashTable
first_table t [] = t
first_table t (u ∷ us) = first_table u us

abbrev pub later_tables : LongHashTable → List LongHashTable → List LongHashTable
later_tables t [] = []
later_tables t (u ∷ us) = t ∷ later_tables u us

first_table-capacity :
    (t : LongHashTable) (ts : List LongHashTable)
    → IsChain t ts
    → (first_table t ts).capacity ≡ initial_capacity
first_table-capacity t [] c = c
first_table-capacity t (u ∷ us) (d, c) = first_table-capacity u us c

module _ (os : Os) (page_mask : ℕ) where
  open os use {State, safe_free}

  abbrev pub freed : List LongHashTable → State → State
  freed [] s = s
  freed (t ∷ ts) s = freed ts (safe_free s t.address (get_size page_mask t.capacity))

  destroy_newer_lem :
      (t : LongHashTable) (ts : List LongHashTable) (s : State)
      → destroy_newer os page_mask t ts s ≡ (first_table t ts, freed (later_tables t ts) s)
  unfolding destroy_newer destroy
  destroy_newer_lem t [] s = refl
  destroy_newer_lem t (u ∷ us) s =
      destroy_newer_lem u us (safe_free s t.address (get_size page_mask t.capacity))

  -- The storage as it is when it is new, with a memory limit, in the first table of `st`.
  abbrev pub Clears : CallTraceStorage → ℕ → State → CallTraceStorage × State → Type 0
  Clears st mem_limit s (new, s') =
      IsSound new
      × (new.current.address ≡ (first_table st.current st.older).address)
      × (capacity new ≡ initial_capacity)
      × ((slot : ℕ) → (new.current.keys slot ≡ 0) × (is_sampled new.current slot ≡ false))
      × (new.current.size ≡ 0)
      × (new.older ≡ [])
      × (used_memory new
          ≡ (get_size page_mask initial_capacity + st.allocator.chunk_size) % u64_mod)
      × (new.overflow ≡ 0)
      × (new.mem_limit ≡ limit_of mem_limit)
      × (s'
          ≡ (LinearAllocator.clear os st.allocator (freed (later_tables st.current st.older) s)).1)

  -- `clear` of a sound storage leaves a sound one that has the first table alone, at the initial
  -- capacity, with no key, no sample and no overflow, and accounts for that table and one chunk of
  -- the allocator. It gives back every other table to the system, each with its own size, before the
  -- allocator gives back its chunks, and sets the limit of memory.
  pub clear-Clears :
      (st : CallTraceStorage) (mem_limit : ℕ) (s : State)
      → IsSound st
      → Clears st mem_limit s (clear os page_mask st mem_limit s)
  unfolding clear clear_table capacity used_memory
  clear-Clears st mem_limit s v =
      let e = destroy_newer_lem st.current st.older s in
      let s₁ : State = (destroy_newer os page_mask st.current st.older s).1 in
      let memory = Clearing.clear-Releases os st.allocator s₁ v.memory in
      let size : (destroy_newer os page_mask st.current st.older s).0.capacity ≡ initial_capacity =
        ap (λ r. r.0.capacity) e ∙ first_table-capacity st.current st.older v.tables.chain in
      let sound : IsSound (clear os page_mask st mem_limit s).0 = record {
        tables = record { chain = size; small = omega (arith, size) };
        memory = memory.0;
      } in
      (
        sound,
        ap (λ r. r.0.address) e,
        omega (arith, size),
        λ slot. (refl, refl),
        refl,
        refl,
        rw (size, memory.6) refl,
        refl,
        refl,
        ap (λ r. (LinearAllocator.clear os st.allocator r.1).1) e,
      )
