-- ===== src/CallTraceStorage/Tests.antt =====
-- Runs of the storage of call traces on concrete inputs.
use async_profiler.Base.{ℕ, ◌*◌, ◌^◌, ◌≤◌, ◌<◌, ◌≡◌, ◌≢◌, refl, arith, List, [], ◌∷◌, some, none}
use async_profiler.Os.{granting}
use async_profiler.LinearAllocator.{LinearAllocator}
use async_profiler.LinearAllocator.Bounds
use async_profiler.CallTraceStorage.{
  CallFrame, CallTrace, CallTraceStorage, LongHashTable, empty_table, claim_slot, set_trace,
  add_sample, probe_from_hash, calc_hash, capacity,
}
use async_profiler.CallTraceStorage.Ops.{put, add}
use async_profiler.CallTraceStorage.Probing.{Settles, probe_from_hash-Settles}
use async_profiler.CallTraceStorage.Ids.{IsValid, entry, bump_entry, entry-add}
use async_profiler.CallTraceStorage.Put.{Puts, put-Puts}
use async_profiler.CallTraceStorage.Invariant.{IsSound, LeavesSound, put-LeavesSound}
use async_profiler.CallTraceStorage.Clearing.{Clears, clear-Clears}
use async_profiler.CallTraceStorage.Total.{put-ne-none}
use async_profiler.CallTraceStorage.Collect.{clear, collect_traces, overflow_entry}
use async_profiler.CallTraceStorage.Collect.Once.{collect_traces_once}

-- Eight slots; the home slot of hash 13 is taken by hash 5.
abbrev eight_slots : LongHashTable
eight_slots = claim_slot (claim_slot (empty_table 100 8) 5 5) 6 13

probe_from_hash-Settles_example : Settles eight_slots 13 (probe_from_hash eight_slots 13)
unfolding claim_slot empty_table
probe_from_hash-Settles_example =
    probe_from_hash-Settles 3 eight_slots 13 (record { power = refl; small = omega arith })

abbrev frames : List CallFrame
frames =
    record { bci = 7; padding = 0; method_id = 140000 }
    ∷ record { bci = 0; padding = 0; method_id = 150000 }
    ∷ []

abbrev first_chunk : LinearAllocator
first_chunk = record {
  chunk_size = 8 * 1024 * 1024;
  used_memory = 8 * 1024 * 1024;
  tail = record { address = 4096; offs = 72 };
  previous = [];
  reserve = none;
}

-- One trace, in slot 3 of the first table.
abbrev one_trace : CallTraceStorage
one_trace = record {
  allocator = first_chunk;
  current =
      add_sample
        (set_trace (claim_slot (empty_table 100 65536) 3 11) 3
          (some (record { address = 4168; frames = frames })))
        3 1 10;
  older = [];
  used_memory = 2101248;
  mem_limit = 2 ^ 40;
  overflow = 2;
}

one_trace-IsValid : IsValid one_trace
unfolding claim_slot set_trace add_sample empty_table
one_trace-IsValid = record { chain = refl; small = omega arith }

put-Puts_example :
    Puts one_trace (calc_hash frames) 1 ℕ (put granting 4095 2 one_trace frames 1 9000)
put-Puts_example = put-Puts granting 4095 2 one_trace frames 1 9000 one_trace-IsValid

first_chunk-IsValid : Bounds.IsValid first_chunk
first_chunk-IsValid = record {
  roomy = omega arith;
  small = omega arith;
  above_header = omega arith;
  within = omega arith;
  fresh = tt;
  accounted = refl;
}

put-ne-none_example : put granting 4095 2 one_trace frames 1 9000 ≢ none
put-ne-none_example =
    put-ne-none granting 4095 0 one_trace frames 1 9000 one_trace-IsValid
      (first_chunk-IsValid, omega arith)

put-LeavesSound_example : LeavesSound granting 4095 2 (put granting 4095 2 one_trace frames 1 9000)
unfolding claim_slot set_trace add_sample empty_table
put-LeavesSound_example =
    put-LeavesSound granting 4095 2 one_trace frames 1 9000
      (record { tables = one_trace-IsValid; memory = first_chunk-IsValid }) (omega arith)
      (omega arith)

abbrev this_id : ℕ
this_id = 4

abbrev other_id : ℕ
other_id = 5

entry-add_example :
    (this_id ≤ capacity one_trace
      → entry (add one_trace this_id 2 20) this_id ≡ bump_entry 2 20 (entry one_trace this_id))
    × (this_id ≢ other_id → entry (add one_trace this_id 2 20) other_id ≡ entry one_trace other_id)
    × (capacity one_trace < this_id → add one_trace this_id 2 20 ≡ one_trace)
entry-add_example = entry-add one_trace this_id other_id 2 20 one_trace-IsValid

abbrev overflow_trace : CallTrace
overflow_trace = record { address = 100; frames = [] }

abbrev two_slots : CallTraceStorage
two_slots = record one_trace {
  current =
      add_sample
        (set_trace (claim_slot (empty_table 100 2) 1 11) 1
          (some (record { address = 4168; frames = frames })))
        1 1 10;
}

collect_traces_once_example :
    let st' : CallTraceStorage = (collect_traces overflow_trace two_slots).0 in
    collect_traces overflow_trace st' ≡ (st', overflow_entry overflow_trace 2 [])
collect_traces_once_example = collect_traces_once overflow_trace two_slots

-- The first table, with a larger one before it in the list.
abbrev two_tables : CallTraceStorage
two_tables = record one_trace {
  current = claim_slot (empty_table 9000 131072) 4 11;
  older = one_trace.current ∷ [];
}

two_tables-IsSound : IsSound two_tables
unfolding claim_slot set_trace add_sample empty_table
two_tables-IsSound = record {
  tables = record { chain = (refl, refl); small = omega arith };
  memory = first_chunk-IsValid;
}

clear-Clears_example :
    Clears granting 4095 two_tables 1000000 9000 (clear granting 4095 two_tables 1000000 9000)
clear-Clears_example = clear-Clears granting 4095 two_tables 1000000 9000 two_tables-IsSound
