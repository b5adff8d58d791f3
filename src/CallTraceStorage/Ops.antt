-- ===== src/CallTraceStorage/Ops.antt =====
-- The operations of `CallTraceStorage` (src/callTraceStorage.cpp) that run while profiling: `put`
-- and `add`. `none` is no value of the code: the allocator's loop did not end within the fuel.
use async_profiler.Base.{
  ℕ, ◌+◌, ◌-◌, ◌*◌, ◌/◌, ◌%◌, List, [], ◌∷◌, Option, none, some, ltb, leb, ◌==◌, if◌then◌else◌,
  length, ◌>>=◌,
}
use async_profiler.LinearAllocator.{LinearAllocator, alloc, pointer, null, stuck}
use async_profiler.Os.{Os}
use async_profiler.CallTraceStorage.{
  CallFrame, calc_hash, CallTrace, CallTraceStorage, LongHashTable, Probe, hit, vacant, full,
  initial_capacity, overflow_trace_id, u32_mod, u64_mod, get_size, empty_table, probe_from_hash,
  find_in_previous, capacity, used_memory, trace_id, add_sample, claim_slot, set_trace, count_hit,
}

-- The tables that the loops walk, newest first.
abbrev pub tables : CallTraceStorage → List LongHashTable
tables st = st.current ∷ st.older

-- The loop of `add`: the first table whose ids reach up to `id`.
unfoldable pub add_in : List LongHashTable → ℕ → ℕ → ℕ → List LongHashTable
unfolding add_sample
add_in [] id samples counter = []
add_in (t ∷ ts) id samples counter =
    if leb t.capacity id
    then add_sample t (id - t.capacity) samples counter ∷ ts
    else t ∷ add_in ts id samples counter

abbrev pub with_tables : CallTraceStorage → List LongHashTable → CallTraceStorage
with_tables st [] = st
with_tables st (t ∷ ts) = record st { current = t; older = ts }

unfoldable pub add : CallTraceStorage → ℕ → ℕ → ℕ → CallTraceStorage
unfolding add_in capacity
add st id samples counter =
    if ltb (capacity st) id
    then st
    else with_tables st
        (add_in (tables st) ((id + (initial_capacity - 1)) % u32_mod) samples counter)

unfoldable pub count_overflow : CallTraceStorage → CallTraceStorage
count_overflow st = record st { overflow = (st.overflow + 1) % u64_mod }

module _ (os : Os) (page_mask : ℕ) where
  open os use {State, safe_alloc}

  -- A trace that was allocated and filled, or NULL.
  unfoldable pub store_call_trace :
      ℕ
      → LinearAllocator
      → List CallFrame
      → State
      → Option (Option CallTrace × LinearAllocator × State)
  store_call_trace fuel a frames s =
      let (r, a', s') = alloc os fuel a (8 + length frames * 16) s in
      elim r [
        | pointer p ↦ some (some (record { address = p; frames = frames }), a', s')
        | null ↦ some (none, a', s')
        | stuck ↦ none
      ]

  unfoldable pub allocate_table : ℕ → State → Option LongHashTable × State
  unfolding empty_table get_size
  allocate_table cap' s =
      let (p, s') = safe_alloc s (get_size page_mask cap') in
      elim p [ none ↦ (none, s') | some address ↦ (some (empty_table address cap'), s') ]

  -- The new table that is reserved when the load factor reaches 0.75.
  unfoldable pub reserve_table : LongHashTable → State → Option LongHashTable × State
  unfolding allocate_table
  reserve_table t s =
      if t.size == t.capacity * 3 % u32_mod / 4
      then allocate_table (t.capacity * 2 % u32_mod) s
      else (none, s)

  -- The trace of a new slot: that of the previous table, or a stored one.
  unfoldable pub trace_for :
      ℕ
      → List LongHashTable
      → LinearAllocator
      → List CallFrame
      → ℕ
      → State
      → Option (Option CallTrace × LinearAllocator × State)
  trace_for fuel older a frames hash s = elim (find_in_previous older hash) [
    | some trace ↦ some (some trace, a, s)
    | none ↦ store_call_trace fuel a frames s
  ]

  -- `storeRelease(_current_table, new_table)`, after `t` has been worked on.
  unfoldable pub publish :
      CallTraceStorage → LongHashTable → Option LongHashTable → CallTraceStorage
  publish st t none = record st { current = t }
  publish st t (some fresh) = record st {
    current = fresh;
    older = t ∷ st.older;
    used_memory = (st.used_memory + get_size page_mask fresh.capacity) % u64_mod;
  }

  -- The branch of `put` for a free slot, below the memory limit.
  unfoldable pub insert :
      ℕ
      → CallTraceStorage
      → List CallFrame
      → ℕ
      → ℕ
      → ℕ
      → State
      → Option (ℕ × CallTraceStorage × State)
  insert fuel st frames hash slot counter s = do
    let t = claim_slot st.current slot hash
    let (fresh, s₁) = reserve_table t s
    (trace, a, s₂) ← trace_for fuel st.older st.allocator frames hash s₁
    let t' = count_hit (set_trace t slot trace) slot counter
    some (trace_id st.current.capacity slot, publish (record st { allocator = a }) t' fresh, s₂)

  -- `put` once the loop has settled.
  unfoldable pub put_at :
      ℕ
      → CallTraceStorage
      → List CallFrame
      → ℕ
      → ℕ
      → Option Probe
      → State
      → Option (ℕ × CallTraceStorage × State)
  put_at fuel st frames hash counter (some (hit slot)) s = some (
    trace_id (st.current.capacity) slot,
    record st { current = count_hit st.current slot counter },
    s,
  )
  put_at fuel st frames hash counter (some (vacant slot)) s =
      if ltb st.mem_limit (used_memory st)
      then some (overflow_trace_id, count_overflow st, s)
      else insert fuel st frames hash slot counter s
  put_at fuel st frames hash counter (some full) s = some (overflow_trace_id, count_overflow st, s)
  put_at fuel st frames hash counter none s = none

  unfoldable pub put :
      ℕ → CallTraceStorage → List CallFrame → ℕ → State → Option (ℕ × CallTraceStorage × State)
  put fuel st frames counter s =
      let hash = calc_hash frames in
      put_at fuel st frames hash counter (probe_from_hash st.current hash) s
