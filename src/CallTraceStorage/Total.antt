-- ===== src/CallTraceStorage/Total.antt =====
-- The end of `put` of src/callTraceStorage.cpp, with the rounds of the allocator's loop.
use async_profiler.Base.{ℕ, suc, ◌+◌, ◌*◌, ◌≤◌, ◌≢◌, List, Option, none, some, arith, length}
use async_profiler.LinearAllocator.{LinearAllocator, chunk_header}
use async_profiler.LinearAllocator.Bounds
use async_profiler.LinearAllocator.Growth.{alloc-ne-stuck}
use async_profiler.Os.{Os}
use async_profiler.CallTraceStorage.{
  CallFrame, calc_hash, CallTraceStorage, LongHashTable, Probe, hit, vacant, full, probe_from_hash,
  claim_slot,
}
use async_profiler.CallTraceStorage.Ops.{
  store_call_trace, reserve_table, trace_for, insert, put_at, put,
}
use async_profiler.CallTraceStorage.Probing.{Settles, probe_from_hash-Settles}
use async_profiler.CallTraceStorage.Ids.{IsValid, valid-IsSized}

module _ (os : Os) (page_mask : ℕ) (fuel : ℕ) where
  open os use {State}

  -- A trace whose header and frames fit an empty chunk.
  abbrev pub Fits : LinearAllocator → List CallFrame → Type 0
  Fits a frames = Bounds.IsValid a × (chunk_header + (8 + length frames * 16) ≤ a.chunk_size)

  store_call_trace-ne-none :
      (a : LinearAllocator) (frames : List CallFrame) (s : State)
      → Fits a frames
      → store_call_trace os page_mask (suc (suc fuel)) a frames s ≢ none
  unfolding store_call_trace
  store_call_trace-ne-none a frames s (v, h) =
      ground (arith, alloc-ne-stuck os fuel a (8 + length frames * 16) s v h)

  trace_for-ne-none :
      (older : List LongHashTable) (a : LinearAllocator) (frames : List CallFrame) (hash : ℕ)
      (s : State)
      → Fits a frames
      → trace_for os page_mask (suc (suc fuel)) older a frames hash s ≢ none
  unfolding trace_for
  trace_for-ne-none older a frames hash s h = ground (arith, store_call_trace-ne-none a frames s h)

  insert-ne-none :
      (st : CallTraceStorage) (frames : List CallFrame) (hash slot counter : ℕ) (s : State)
      → Fits st.allocator frames
      → insert os page_mask (suc (suc fuel)) st frames hash slot counter s ≢ none
  unfolding insert
  insert-ne-none st frames hash slot counter s h =
      let s₁ = (reserve_table os page_mask (claim_slot st.current slot hash) s).1 in
      ground (arith, trace_for-ne-none st.older st.allocator frames hash s₁ h)

  put_at-ne-none :
      (st : CallTraceStorage) (frames : List CallFrame) (hash counter : ℕ) (r : Option Probe)
      (s : State)
      → Fits st.allocator frames
      → Settles st.current hash r
      → put_at os page_mask (suc (suc fuel)) st frames hash counter r s ≢ none
  unfolding put_at
  put_at-ne-none st frames hash counter (some (hit slot)) s h a = λ e. cc
  put_at-ne-none st frames hash counter (some (vacant slot)) s h a =
      ground (arith, insert-ne-none st frames hash slot counter s h)
  put_at-ne-none st frames hash counter (some full) s h a = λ e. cc
  put_at-ne-none st frames hash counter none s h a = absurd a

  -- On valid tables and a valid allocator, `put` of a trace that fits a chunk returns, whatever the
  -- system answers to requests for memory.
  pub put-ne-none :
      (st : CallTraceStorage) (frames : List CallFrame) (counter : ℕ) (s : State)
      → IsValid st
      → Fits st.allocator frames
      → put os page_mask (suc (suc fuel)) st frames counter s ≢ none
  unfolding put
  put-ne-none st frames counter s v h =
      let (k, z) = valid-IsSized st v in
      put_at-ne-none st frames (calc_hash frames) counter
        (probe_from_hash st.current (calc_hash frames)) s h
        (probe_from_hash-Settles k st.current (calc_hash frames) z)
