-- ===== src/CallTraceStorage/Collect.antt =====
-- The operations of `CallTraceStorage` (src/callTraceStorage.cpp) around a recording: construction,
-- `clear`, `collectTraces`, `collectSamples` and `resetCounters`. A loop over the slots of a table
-- counts the slots that are left; a std::map that is only written is the list of its insertions.
pub mod Once
use async_profiler.Base.{
  ℕ, zero, suc, ◌+◌, ◌-◌, Bool, true, false, not, ◌&&◌, List, [], ◌∷◌, ◌++◌, Option, none, some,
  ltb, ◌==◌, if◌then◌else◌, bit_or,
}
use async_profiler.LinearAllocator.{LinearAllocator}
use async_profiler.LinearAllocator
use async_profiler.Os.{Os}
use async_profiler.CallTraceStorage.{
  CallTrace, CallTraceSample, CallTraceStorage, LongHashTable, initial_capacity, overflow_trace_id,
  mem_limit_extra, u64_mod, get_size, trace_id, write, no_sample, bump_sample,
}

-- `mem_limit ? mem_limit | MEM_LIMIT_EXTRA : SIZE_MAX`
unfoldable pub limit_of : ℕ → ℕ
limit_of mem_limit = if mem_limit == 0 then u64_mod - 1 else bit_or mem_limit mem_limit_extra

unfoldable pub clear_table : LongHashTable → LongHashTable
clear_table t = record t { size = 0; keys = λ _. 0; values = λ _. no_sample }

module _ (os : Os) (page_mask : ℕ) where
  open os use {State, safe_free}

  -- `destroy` on a table; what it returns is the next one of the list.
  unfoldable pub destroy : LongHashTable → State → State
  destroy t s = safe_free s t.address (get_size page_mask t.capacity)

  -- The loop of `clear` over the tables that have one before them: the last table, and the state.
  unfoldable pub destroy_newer : LongHashTable → List LongHashTable → State → LongHashTable × State
  unfolding destroy
  destroy_newer t [] s = (t, s)
  destroy_newer t (u ∷ us) s = destroy_newer u us (destroy t s)

  -- The loop of the destructor.
  unfoldable pub destroy_all : List LongHashTable → State → State
  unfolding destroy
  destroy_all [] s = s
  destroy_all (t ∷ ts) s = destroy_all ts (destroy t s)

  -- The allocator and the first table are given: the code does not check them for NULL.
  unfoldable pub new : LinearAllocator → LongHashTable → CallTraceStorage
  new a t = record {
    allocator = a;
    current = t;
    older = [];
    used_memory = get_size page_mask t.capacity;
    mem_limit = u64_mod - 1;
    overflow = 0;
  }

  unfoldable pub clear : CallTraceStorage → ℕ → State → CallTraceStorage × State
  unfolding destroy_newer clear_table limit_of
  clear st mem_limit s =
      let (first, s₁) = destroy_newer st.current st.older s in
      let t = clear_table first in
      let (a, s') = LinearAllocator.clear os st.allocator s₁ in
      (
        record {
          allocator = a;
          current = t;
          older = [];
          used_memory = get_size page_mask t.capacity;
          mem_limit = limit_of mem_limit;
          overflow = 0;
        },
        s',
      )

-- `keys[slot] != 0 && loadAcquire(values[slot].samples) != 0`
abbrev pub is_sampled : LongHashTable → ℕ → Bool
is_sampled t slot = not (t.keys slot == 0) && not ((t.values slot).samples == 0)

abbrev pub entry_of : ℕ → Option CallTrace → List (ℕ × CallTrace) → List (ℕ × CallTrace)
entry_of id none acc = acc
entry_of id (some trace) acc = (id, trace) ∷ acc

unfoldable pub reset_samples : LongHashTable → ℕ → LongHashTable
reset_samples t slot = record t {
  values = write t.values slot (record (t.values slot) { samples = 0 });
}

-- The inner loop of `collectTraces`; the insertions stand latest first.
unfoldable pub collect_slots :
    ℕ → ℕ → LongHashTable → List (ℕ × CallTrace) → LongHashTable × List (ℕ × CallTrace)
collect_slots zero slot t acc = (t, acc)
collect_slots (suc left) slot t acc =
    let yes_t = reset_samples t slot in
    let yes_acc = entry_of (trace_id t.capacity slot) (t.values slot).trace acc in
    let hit = is_sampled t slot in
    collect_slots left (slot + 1) (if hit then yes_t else t) (if hit then yes_acc else acc)

-- The outer loop, over a table and those before it.
unfoldable pub collect_tables :
    List LongHashTable → List (ℕ × CallTrace) → List LongHashTable × List (ℕ × CallTrace)
collect_tables [] acc = ([], acc)
collect_tables (t ∷ ts) acc =
    let (t', acc₁) = collect_slots t.capacity 0 t acc in
    let (ts', acc₂) = collect_tables ts acc₁ in (t' ∷ ts', acc₂)

-- `map[OVERFLOW_TRACE_ID] = &_overflow_trace`, if any trace was dropped.
unfoldable pub overflow_entry : CallTrace → ℕ → List (ℕ × CallTrace) → List (ℕ × CallTrace)
overflow_entry overflow_trace n acc =
    if n == 0 then acc else (overflow_trace_id, overflow_trace) ∷ acc

unfoldable pub collect_traces :
    CallTrace → CallTraceStorage → CallTraceStorage × List (ℕ × CallTrace)
collect_traces overflow_trace st =
    let (t, acc₁) = collect_slots st.current.capacity 0 st.current [] in
    let (ts, acc₂) = collect_tables st.older acc₁ in
    (record st { current = t; older = ts }, overflow_entry overflow_trace st.overflow acc₂)

unfoldable pub reset_slots : ℕ → ℕ → LongHashTable → LongHashTable
reset_slots zero slot t = t
reset_slots (suc left) slot t =
    let zeroed = record t {
      values = write t.values slot (record (t.values slot) { samples = 0; counter = 0 });
    } in
    reset_slots left (slot + 1) (if t.keys slot == 0 then t else zeroed)

unfoldable pub reset_tables : List LongHashTable → List LongHashTable
reset_tables [] = []
reset_tables (t ∷ ts) = reset_slots t.capacity 0 t ∷ reset_tables ts

unfoldable pub reset_counters : CallTraceStorage → CallTraceStorage
reset_counters st = record st {
  current = reset_slots st.current.capacity 0 st.current;
  older = reset_tables st.older;
}

-- `collectSamples` into a vector: the samples of the slots in use, latest first.
unfoldable pub sample_slots : ℕ → ℕ → LongHashTable → List CallTraceSample → List CallTraceSample
sample_slots zero slot t acc = acc
sample_slots (suc left) slot t acc =
    sample_slots left (slot + 1) t (if t.keys slot == 0 then acc else t.values slot ∷ acc)

unfoldable pub sample_tables : List LongHashTable → List CallTraceSample → List CallTraceSample
sample_tables [] acc = acc
sample_tables (t ∷ ts) acc = sample_tables ts (sample_slots t.capacity 0 t acc)

unfoldable pub collect_samples : CallTraceStorage → List CallTraceSample
collect_samples st = sample_tables (st.current ∷ st.older) []

-- `CallTraceSample::operator+=`
unfoldable pub plus_sample : CallTraceSample → CallTraceSample → CallTraceSample
plus_sample x s = record (bump_sample x s.samples s.counter) { trace = s.trace }

-- `collectSamples` into a map from hashes; a missing key starts from zeros.
unfoldable pub merge_slots : ℕ → ℕ → LongHashTable → (ℕ → CallTraceSample) → ℕ → CallTraceSample
merge_slots zero slot t m = m
merge_slots (suc left) slot t m =
    let key = t.keys slot in
    let merged = write m key (plus_sample (m key) (t.values slot)) in
    merge_slots left (slot + 1) t
      (if key == 0 then m else elim (t.values slot).trace [ none ↦ m | some _ ↦ merged ])

unfoldable pub merge_tables : List LongHashTable → (ℕ → CallTraceSample) → ℕ → CallTraceSample
merge_tables [] m = m
merge_tables (t ∷ ts) m = merge_tables ts (merge_slots t.capacity 0 t m)

unfoldable pub collect_by_hash : CallTraceStorage → (ℕ → CallTraceSample) → ℕ → CallTraceSample
collect_by_hash st m = merge_tables (st.current ∷ st.older) m
