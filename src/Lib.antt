-- ===== src/Lib.antt =====
-- async-profiler: a sampling profiler for Java. Signal handlers and hooks take samples; each stack
-- trace is interned in the storage of call traces, whose tables and traces live in mapped memory;
-- native addresses are named by searching the symbols of the loaded libraries; and recordings are
-- written out at the end. This library models the core data structures of the C++ agent under src/
-- of the repository.
--
-- Files:
-- Base and its children: what all files share: names of the standard libraries, Boolean tests on
--   natural numbers, lists over the native naturals, integers, facts on bit operations, the binary
--   search over positions that src/codeCache.cpp runs in two places, and (Base/Texts) the functions
--   of the C library on texts and numbers.
-- Os: the memory mapping of src/os.h (safeAlloc, safeFree) as a record of operations, a parameter
--   of what uses it; any answer of the system is allowed.
-- LinearAllocator: src/linearAllocator.cpp. alloc, clear, reserveChunk, getNextChunk and
--   allocateChunk are functions of the same names on the allocator's state and the system's.
--   The outer loop of alloc runs on fuel. LinearAllocator/Bounds, Growth and Clearing have the proofs.
-- CallTraceStorage: src/callTraceStorage.cpp. The chain of hash tables, with `put` cut into
--   probing (`probe`, on fuel, one round per slot of the table), `insert` and `count_hit`; `add`; the
--   collecting loops and `clear`; calcHash in CallTraceStorage/Hash. CallTraceStorage/Put, Total,
--   Invariant and Clearing have the proofs on `put` and `clear`.
-- ProtoBuffer: src/protobuf.cpp. A store out of bounds is a result of its own (`none`).
-- JfrBuffer: class Buffer of src/flightRecorder.cpp; JfrBuffer/VarInt its compressed integers. The
--   rounds of the loops are counted: five groups for 32 bits; three rounds of three for 64 bits.
-- SpinLock: src/spinLock.h, as steps of any number of threads.
-- RateLimit: src/rateLimit.cpp and the event categories of src/event.h and src/arguments.h.
-- ThreadFilter: src/threadFilter.cpp; ThreadFilter/Init the filter text, its loop on fuel, one round for
--   each character and one more; ThreadFilter/Bits, Members, Consuming and Filtering the proofs.
-- CodeCache: src/codeCache.cpp, the symbols, their search, and the lookup in the unwinding table;
--   CodeCache/Imports the imported symbols that are hooked.
-- Dwarf: src/dwarf.cpp, the parser that builds the unwinding table: Dwarf/Reading the bytes,
--   Dwarf/Records the table, Dwarf/Instructions and Expressions the machines of the call frame
--   instructions and of their expressions (with a round for each byte and one more), Dwarf/Sections
--   the two sections. Dwarf/Ending and its children are about the ends of the loops, Dwarf/Leb and
--   Compression about what they compute.
-- Arguments: src/arguments.cpp and src/arguments.h. Arguments/Names the options and the hash that tells
--   them apart, Arguments/Values and RateLimits the values, Arguments/Handlers the bodies of the cases
--   by groups, Arguments/Parse the loop and what follows it, Arguments/Queries the questions about the
--   options, Arguments/Pattern the expansion of file patterns in its buffer. The other files under
--   Arguments have the proofs. parseRateLimit and expandFilePattern run on fuel, one round for each
--   character.
-- Dictionary: src/dictionary.cpp. The tables stand in a memory by the order of their creation;
--   Dictionary.new is the constructor and what clear leaves; lookup runs on fuel, a round for each
--   table and two more. Dictionary/Contents, Cells, Lookup and Names have the proofs.
-- Profiler: src/profiler.cpp, start and stop as a state machine over what is switched on: Profiler the
--   engines and the recording, Profiler/Checks the checks of the options, Profiler/Switching the two
--   operations. Profiler/Starting, Outcomes and Lifecycle have the proofs. It reads the options of
--   Arguments.
-- The storage calls the allocator (`store_call_trace`), the allocator, the storage and the thread
-- filter call the system (`Os`); the code cache searches the table that the parser builds.
--
-- Conventions: machine words are natural numbers and wrap where the code may wrap (`% 2 ^ 64`); a
-- signed counter is an integer; texts are lists of bytes without the terminating 0. `none` or
-- `stuck` for fuel that ran out is no value of the code. The readers of Dwarf, also of the texts that
-- it skips, and the loop of alloc take their fuel from the caller; the rounds of the other loops are
-- counted as it says above or at their definitions.
--
-- Not modelled: interleavings of several threads in the allocator, the storage and the thread filter
-- (each compare-and-swap succeeds); undefined behaviour other than the faults that are written out,
-- as the shifts of the option hash past the word and the bitmap of a negative thread id; the access
-- to the virtual machine, to the operating system and to object files; the output formats.
pub mod Base
pub mod Os
pub mod LinearAllocator
pub mod CallTraceStorage
pub mod ProtoBuffer
pub mod SpinLock
pub mod RateLimit
pub mod ThreadFilter
pub mod CodeCache
pub mod Dwarf
pub mod Arguments
pub mod Dictionary
pub mod JfrBuffer
pub mod Profiler
