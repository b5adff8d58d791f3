-- ===== src/CallTraceStorage/Invariant.antt =====
-- The soundness of the storage of src/callTraceStorage.cpp under `put`.
use async_profiler.Base.{
  ℕ, ◌+◌, ◌*◌, ◌≤◌, ◌<◌, ◌^◌, ◌≡◌, refl, List, [], ◌∷◌, Option, none, some, arith, Option-cases,
  inl, inr, length, Bool-cases, ltb, sym, subst, ◌∙◌,
}
use async_profiler.LinearAllocator.{LinearAllocator, alloc, Alloc, pointer, null, stuck}
use async_profiler.LinearAllocator.Bounds
use async_profiler.LinearAllocator.Bounds.{Allocates, alloc-Allocates}
use async_profiler.Os.{Os}
use async_profiler.CallTraceStorage.{
  CallFrame, CallTrace, calc_hash, CallTraceStorage, LongHashTable, Probe, hit, vacant, full,
  probe_from_hash, find_in_previous, used_memory, claim_slot, set_trace, count_hit,
}
use async_profiler.CallTraceStorage.Ops.{
  store_call_trace, reserve_table, trace_for, publish, insert, put_at, put, count_overflow,
}
use async_profiler.CallTraceStorage.Ids.{IsChain, IsValid}
use async_profiler.CallTraceStorage.Put.{IsDouble, reserve_table-IsDouble}

-- The tables form a chain, and the allocator is valid.
pub record IsSound (st : CallTraceStorage) : Type 0 where
  pub tables : IsValid st
  pub memory : Bounds.IsValid st.allocator

IsChain-same_capacity :
    (t u : LongHashTable) (ts : List LongHashTable)
    → u.capacity ≡ t.capacity
    → IsChain t ts
    → IsChain u ts
IsChain-same_capacity t u [] e c = e ∙ c
IsChain-same_capacity t u (v ∷ vs) e (d, c) = (e ∙ d, c)

module _ (os : Os) (page_mask : ℕ) (fuel : ℕ) where
  open os use {State}

  abbrev Keeps : Option (Option CallTrace × LinearAllocator × State) → Type 0
  Keeps none = Unit
  Keeps (some (trace, a, s)) = Bounds.IsValid a

  stored-Keeps :
      (frames : List CallFrame) (size : ℕ) (r : Alloc × LinearAllocator × State)
      → Allocates os size r
      → Keeps (elim r.0 [
        | pointer p ↦ some (some (record { address = p; frames = frames }), r.1, r.2)
        | null ↦ some (none, r.1, r.2)
        | stuck ↦ none
      ])
  stored-Keeps frames size (pointer p, a, s) (v, c) = v
  stored-Keeps frames size (null, a, s) (v, c) = v
  stored-Keeps frames size (stuck, a, s) h = tt

  either-Keeps :
      (a : LinearAllocator) (s : State) (o : Option CallTrace)
      (rest : Option (Option CallTrace × LinearAllocator × State))
      → Bounds.IsValid a
      → Keeps rest
      → Keeps (elim o [ some trace ↦ some (some trace, a, s) | none ↦ rest ])
  either-Keeps a s none rest v k = k
  either-Keeps a s (some trace) rest v k = v

  trace_for-Keeps :
      (older : List LongHashTable) (a : LinearAllocator) (frames : List CallFrame) (hash : ℕ)
      (s : State)
      → Bounds.IsValid a
      → 8 + length frames * 16 < 2 ^ 62
      → Keeps (trace_for os page_mask fuel older a frames hash s)
  unfolding trace_for store_call_trace
  trace_for-Keeps older a frames hash s v h =
      let size : ℕ = 8 + length frames * 16 in
      either-Keeps a s (find_in_previous older hash) (store_call_trace os page_mask fuel a frames s)
        v (stored-Keeps frames size (alloc os fuel a size s) (alloc-Allocates os fuel a size s v h))

  publish-IsSound :
      (st : CallTraceStorage) (t : LongHashTable) (fresh : Option LongHashTable)
      → IsSound st
      → st.current.capacity ≤ 2 ^ 29
      → t.capacity ≡ st.current.capacity
      → IsDouble os page_mask t.capacity fresh
      → IsSound (publish os page_mask st t fresh)
  unfolding publish
  publish-IsSound st t none v h e n = record {
    tables = record {
      chain = IsChain-same_capacity st.current t st.older e v.tables.chain;
      small = omega (arith, e);
    };
    memory = v.memory;
  }
  publish-IsSound st t (some u) v h e n = record {
    tables = record {
      chain = (n, IsChain-same_capacity st.current t st.older e v.tables.chain);
      small = omega (arith, e, n);
    };
    memory = v.memory;
  }

  abbrev pub LeavesSound : Option (ℕ × CallTraceStorage × State) → Type 0
  LeavesSound none = Unit
  LeavesSound (some (id, st, s)) = IsSound st

  worked_on :
      (t : LongHashTable) (slot hash counter : ℕ) (trace : Option CallTrace)
      → (count_hit (set_trace (claim_slot t slot hash) slot trace) slot counter).capacity
        ≡ t.capacity
  unfolding count_hit set_trace claim_slot
  worked_on t slot hash counter trace = ground arith

  insert-LeavesSound :
      (st : CallTraceStorage) (frames : List CallFrame) (hash slot counter : ℕ) (s : State)
      → IsSound st
      → st.current.capacity ≤ 2 ^ 29
      → 8 + length frames * 16 < 2 ^ 62
      → LeavesSound (insert os page_mask fuel st frames hash slot counter s)
  unfolding insert
  insert-LeavesSound st frames hash slot counter s v h f =
      let t = claim_slot st.current slot hash in
      let (fresh, s₁) = reserve_table os page_mask t s in
      let same : t.capacity ≡ st.current.capacity = unfold claim_slot in refl in
      let keeps = trace_for-Keeps st.older st.allocator frames hash s₁ v.memory f in
      elim (Option-cases (trace_for os page_mask fuel st.older st.allocator frames hash s₁)) [
        | inl stop ↦ rw stop tt
        | inr ((trace, a, s₂), go) ↦
            let e = worked_on st.current slot hash counter trace in
            let n : IsDouble os page_mask (count_hit (set_trace t slot trace) slot counter).capacity
                fresh =
              subst (λ c. IsDouble os page_mask c fresh) (same ∙ sym e)
                (reserve_table-IsDouble os page_mask t s (omega (arith, same))) in
            rw go (
              publish-IsSound (record st { allocator = a })
                (count_hit (set_trace t slot trace) slot counter) fresh
                (record {
                  tables = record { chain = v.tables.chain; small = v.tables.small };
                  memory = subst Keeps go keeps;
                })
                h e n)
      ]

  put_at-LeavesSound :
      (st : CallTraceStorage) (frames : List CallFrame) (hash counter : ℕ) (r : Option Probe)
      (s : State)
      → IsSound st
      → st.current.capacity ≤ 2 ^ 29
      → 8 + length frames * 16 < 2 ^ 62
      → LeavesSound (put_at os page_mask fuel st frames hash counter r s)
  unfolding put_at count_overflow publish
  put_at-LeavesSound st frames hash counter (some (hit slot)) s v h f =
      publish-IsSound st (count_hit st.current slot counter) none v h
        (unfold count_hit in ground arith) tt
  put_at-LeavesSound st frames hash counter (some (vacant slot)) s v h f =
      elim (Bool-cases (ltb st.mem_limit (used_memory st))) [
        | inl over ↦ rw over (record {
          tables = record { chain = v.tables.chain; small = v.tables.small };
          memory = v.memory;
        })
        | inr free ↦ rw free (insert-LeavesSound st frames hash slot counter s v h f)
      ]
  put_at-LeavesSound st frames hash counter (some full) s v h f = record {
    tables = record { chain = v.tables.chain; small = v.tables.small };
    memory = v.memory;
  }
  put_at-LeavesSound st frames hash counter none s v h f = tt

  -- `put` keeps the storage sound: each table is twice as large as the one before it, and the
  -- allocator is valid. That holds while the current table has at most 2 ^ 29 slots and for traces
  -- below 2 ^ 62 bytes, whatever the system answers to requests for memory.
  pub put-LeavesSound :
      (st : CallTraceStorage) (frames : List CallFrame) (counter : ℕ) (s : State)
      → IsSound st
      → st.current.capacity ≤ 2 ^ 29
      → 8 + length frames * 16 < 2 ^ 62
      → LeavesSound (put os page_mask fuel st frames counter s)
  unfolding put
  put-LeavesSound st frames counter s v h f =
      put_at-LeavesSound st frames (calc_hash frames) counter
        (probe_from_hash st.current (calc_hash frames)) s v h f
