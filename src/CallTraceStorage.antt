-- ===== src/CallTraceStorage.antt =====
-- src/callTraceStorage.cpp and src/callTraceStorage.h: the chain of hash tables that gives every
-- call trace its id. Run by one thread, so that each CAS succeeds; on a 64-bit machine.
-- `_current_table` and the tables behind its `prev` links are `current` and `older`. The two
-- arrays of a table are functions of the slot; every slot that is read is below the capacity.
mod Hash
pub mod Probing
pub mod Ops
pub mod Collect
pub mod Ids
pub mod Put
pub mod Total
pub mod Invariant
pub mod Clearing
mod Tests
unfoldable pub use Hash.*
use async_profiler.Base.{
  ℕ, zero, suc, ◌+◌, ◌-◌, ◌*◌, ◌/◌, ◌%◌, ◌^◌, Bool, true, false, not, ◌&&◌, List, [], ◌∷◌, ◌++◌,
  Option, none, some, ltb, leb, ◌==◌, if◌then◌else◌, bit_and, bit_or, length,
}
use async_profiler.LinearAllocator.{LinearAllocator, alloc, Alloc, pointer, null, stuck}
use async_profiler.LinearAllocator
use async_profiler.Os.{Os}

abbrev pub initial_capacity : ℕ
initial_capacity = 65536

abbrev pub overflow_trace_id : ℕ
overflow_trace_id = 0x7fffffff

abbrev pub mem_limit_extra : ℕ
mem_limit_extra = 0x10000

abbrev pub u32_mod : ℕ
u32_mod = 2 ^ 32

abbrev pub u64_mod : ℕ
u64_mod = 2 ^ 64

-- A stored trace: where it lies, and its frames.
pub record CallTrace : Type 0 where
  pub address : ℕ
  pub frames : List CallFrame

pub record CallTraceSample : Type 0 where
  pub trace : Option CallTrace
  pub samples : ℕ
  pub counter : ℕ

abbrev pub no_sample : CallTraceSample
no_sample = record { trace = none; samples = 0; counter = 0 }

-- A table lies at an address.
pub record LongHashTable : Type 0 where
  pub address : ℕ
  pub capacity : ℕ
  pub size : ℕ
  pub keys : ℕ → ℕ
  pub values : ℕ → CallTraceSample

pub record CallTraceStorage : Type 0 where
  pub allocator : LinearAllocator
  pub current : LongHashTable
  pub older : List LongHashTable
  pub used_memory : ℕ
  pub mem_limit : ℕ
  pub overflow : ℕ

-- An array with one element written.
abbrev pub write {ℓ} : {A : Type ℓ} → (ℕ → A) → ℕ → A → ℕ → A
write f i v j = if i == j then v else f j

-- `page_mask` is the page size less one; `~page_mask` clears those bits of a 64-bit size.
unfoldable pub get_size : ℕ → ℕ → ℕ
get_size page_mask capacity = bit_and (144 + 32 * capacity + page_mask) (u64_mod - 1 - page_mask)

-- Fresh pages are zero.
unfoldable pub empty_table : ℕ → ℕ → LongHashTable
empty_table address capacity = record {
  address = address;
  capacity = capacity;
  size = 0;
  keys = λ _. 0;
  values = λ _. no_sample;
}

-- How the probing loop of `put` and `findCallTrace` ends: at the hash, at a free slot, or after
-- `capacity` steps. `none` is no value of the code: the fuel ran out.
pub data Probe : Type 0 where
  hit : ℕ → Probe
  vacant : ℕ → Probe
  full : Probe

unfoldable pub next_slot : ℕ → ℕ → ℕ → ℕ
next_slot capacity slot step = bit_and ((slot + step) % u32_mod) (capacity - 1)

pub probe : ℕ → LongHashTable → ℕ → ℕ → ℕ → Option Probe
unfolding next_slot
probe zero t hash slot step = none
probe (suc fuel) t hash slot step =
    let key = t.keys slot in
    let rest = probe fuel t hash (next_slot t.capacity slot (step + 1)) (step + 1) in
    if key == hash
    then some (hit slot)
    else if key == 0
    then some (vacant slot)
    else if leb t.capacity (step + 1)
    then some full
    else rest

-- The loop from `slot = hash & (capacity - 1)` on; `capacity` rounds are enough.
unfoldable pub probe_from_hash : LongHashTable → ℕ → Option Probe
probe_from_hash t hash = probe t.capacity t hash (bit_and hash (t.capacity - 1)) 0

pub found_trace : LongHashTable → Option Probe → Option CallTrace
found_trace t (some (hit slot)) = (t.values slot).trace
found_trace t (some (vacant slot)) = none
found_trace t (some full) = none
found_trace t none = none

unfoldable pub find_call_trace : LongHashTable → ℕ → Option CallTrace
unfolding found_trace probe_from_hash
find_call_trace t hash = found_trace t (probe_from_hash t hash)

-- `table->prev() == NULL ? NULL : findCallTrace(table->prev(), hash)`
unfoldable pub find_in_previous : List LongHashTable → ℕ → Option CallTrace
unfolding find_call_trace
find_in_previous [] hash = none
find_in_previous (t ∷ ts) hash = find_call_trace t hash

unfoldable pub capacity : CallTraceStorage → ℕ
capacity st = (st.current.capacity * 2 + u32_mod - initial_capacity) % u32_mod

unfoldable pub used_memory : CallTraceStorage → ℕ
used_memory st = (st.used_memory + st.allocator.used_memory) % u64_mod

-- `capacity - (INITIAL_CAPACITY - 1) + slot`
unfoldable pub trace_id : ℕ → ℕ → ℕ
trace_id capacity slot = (capacity + u32_mod - (initial_capacity - 1) + slot) % u32_mod

abbrev pub bump_sample : CallTraceSample → ℕ → ℕ → CallTraceSample
bump_sample s samples counter = record s {
  samples = (s.samples + samples) % u64_mod;
  counter = (s.counter + counter) % u64_mod;
}

unfoldable pub add_sample : LongHashTable → ℕ → ℕ → ℕ → LongHashTable
add_sample t slot samples counter = record t {
  values = write t.values slot (bump_sample (t.values slot) samples counter);
}

unfoldable pub claim_slot : LongHashTable → ℕ → ℕ → LongHashTable
claim_slot t slot hash = record t { keys = write t.keys slot hash; size = (t.size + 1) % u32_mod }

unfoldable pub set_trace : LongHashTable → ℕ → Option CallTrace → LongHashTable
set_trace t slot trace = record t {
  values = write t.values slot (record (t.values slot) { trace = trace });
}

-- The last `if` of `put`.
unfoldable pub count_hit : LongHashTable → ℕ → ℕ → LongHashTable
unfolding add_sample
count_hit t slot counter = if counter == 0 then t else add_sample t slot 1 counter
