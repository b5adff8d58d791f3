-- ===== src/Profiler/Checks.antt =====
-- The checks of Profiler::start (src/profiler.cpp) before it drives anything on.
use Prim.Native.String.{String}
use async_profiler.Base.{
  ℕ, zero, suc, ◌-◌, ◌/◌, ◌%◌, Bool, true, false, not, ◌&&◌, ◌||◌, Option, none, some,
  if◌then◌else◌, ◌==◌, bit_and,
}
use async_profiler.Base.Int.{ℤ, pos, negsuc}
use async_profiler.Arguments.{Arguments, CStack, default_stack, no_stack, fp, dwarf, vm}
use async_profiler.Arguments.Parse.{is_nil}
use async_profiler.Arguments.Queries.{is_jfr}
use async_profiler.Arguments.Handlers.Formats.{is_negative}
use async_profiler.Arguments.Handlers.Engines.{is_null, is_minus_one}

-- The engine that selectEngine chooses, as far as the checks tell them apart.
pub data EngineKind : Type 0 where
  wall_clock perf_events instrument other_engine : EngineKind

-- What the checks learn from the virtual machine, the platform and the other components.
pub record Facts : Type 0 where
  pub jvm_error : Option String
  pub vm_loaded : Bool
  pub cookie_error : Option String
  pub cookie_signal : ℕ
  pub connects : Bool
  pub is_linux : Bool
  pub has_buffers : Bool
  pub engine_kind : EngineKind
  pub dwarf_supported : Bool
  pub has_stack_structs : Bool
  pub is_openj9 : Bool

abbrev pub check : Bool → String → Option String → Option String
check wrong message later = if wrong then some message else later

-- `_event_mask & (_event_mask - 1)`
unfoldable pub has_several : ℕ → Bool
has_several mask = not (bit_and mask (mask - 1) == 0)

-- The loop over the bytes of `_signal`; an int has four of them.
unfoldable pub collides : ℕ → ℕ → ℕ → Bool
collides zero cookie signals = false
collides (suc n) cookie zero = false
collides (suc n) cookie (suc k) = (suc k % 256 == cookie) || collides n cookie (suc k / 256)

abbrev pub as_signals : ℤ → ℕ
as_signals (pos n) = n
as_signals (negsuc n) = 0

unfoldable pub signal_error : Facts → Arguments → Option String → Option String
unfolding collides
signal_error f a later =
    check (not (f.cookie_signal == 0) && collides 4 f.cookie_signal (as_signals a.signal))
      "Profiling signal collides with the reserved signalcookie signal" later

abbrev pub or_later : Option String → Option String → Option String
or_later none later = later
or_later (some message) later = some message

abbrev pub is_above_zero : ℤ → Bool
is_above_zero (pos n) = not (n == 0)
is_above_zero (negsuc n) = false

-- The checks of the request, with the mask of its events.
unfoldable pub request_error : Facts → ℕ → Arguments → Option String
unfolding has_several signal_error
request_error f mask a =
    check ((mask == 0) && not a.signal_cookie) "No profiling events specified" (
      check (has_several mask && not (is_jfr a.output)) "Only JFR output supports multiple events" (
        check (not f.vm_loaded && not (bit_and mask 70 == 0))
          "Profiling event is not supported with non-Java processes"
          (check (not (is_null a.jfr_sync) && not f.vm_loaded)
            "jfrsync is not supported with non-Java processes"
            (or_later f.cookie_error (
              signal_error f a (
                check (a.fdtransfer && not f.connects) "Failed to initialize FdTransferClient" (
                  check (is_above_zero a.proc && not f.is_linux)
                    "Process sampling is not supported on the platform"
                    (check (is_above_zero a.proc && not (is_jfr a.output))
                      "Process sampling requires JFR output format"
                      (check (not f.has_buffers)
                        "Not enough memory to allocate stack trace buffers (try smaller jstackdepth)"
                        none)))))))))

abbrev pub is_wall_clock : EngineKind → Bool
is_wall_clock wall_clock = true
is_wall_clock perf_events = false
is_wall_clock instrument = false
is_wall_clock other_engine = false

abbrev pub is_perf_events : EngineKind → Bool
is_perf_events wall_clock = false
is_perf_events perf_events = true
is_perf_events instrument = false
is_perf_events other_engine = false

abbrev pub is_instrument : EngineKind → Bool
is_instrument wall_clock = false
is_instrument perf_events = false
is_instrument instrument = true
is_instrument other_engine = false

unfoldable pub engine_error : Facts → Arguments → Option String
engine_error f a =
    check (is_wall_clock f.engine_kind && not (is_negative a.wall))
      "Cannot start wall clock with the selected event"
      (check (not (is_perf_events f.engine_kind) && not (is_minus_one a.target_cpu))
        "target-cpu is only supported with perf_events"
        (check (not (is_perf_events f.engine_kind) && a.record_cpu)
          "record-cpu is only supported with perf_events"
          (check (is_instrument f.engine_kind && not (is_nil a.trace))
            "Running method tracing and Java method sampling in parallel is not supported" none)))

-- `_cstack` as it is used: a default is replaced by what the virtual machine offers.
unfoldable pub used_stack : Facts → Arguments → CStack → CStack
used_stack f a default_stack =
    if f.has_stack_structs && not a.features.agct
    then vm
    else if f.is_openj9 && f.dwarf_supported
    then dwarf
    else default_stack
used_stack f a dwarf = if f.has_stack_structs && not a.features.agct then vm else dwarf
used_stack f a no_stack = no_stack
used_stack f a fp = fp
used_stack f a vm = vm

abbrev pub is_dwarf : CStack → Bool
is_dwarf default_stack = false
is_dwarf no_stack = false
is_dwarf fp = false
is_dwarf dwarf = true
is_dwarf vm = false

abbrev pub is_vm : CStack → Bool
is_vm default_stack = false
is_vm no_stack = false
is_vm fp = false
is_vm dwarf = false
is_vm vm = true

unfoldable pub stack_error : Facts → Arguments → Option String
unfolding used_stack
stack_error f a =
    check (is_dwarf a.cstack && not f.dwarf_supported)
      "DWARF unwinding is not supported on this platform"
      (check (is_vm a.cstack && (f.vm_loaded && not f.has_stack_structs))
        "VMStructs stack walking is not supported on this JVM/platform"
        (check (is_vm (used_stack f a a.cstack) && a.features.agct)
          "agct feature is incompatible with cstack=vm"
          (check (not (is_vm (used_stack f a a.cstack)) && a.features.mixed)
            "mixed feature is only allowed with VMStructs stack walking" none)))

-- All checks after the mask is set.
unfoldable pub start_error : Facts → ℕ → Arguments → Option String
unfolding request_error engine_error stack_error
start_error f mask a =
    or_later (request_error f mask a) (or_later (engine_error f a) (stack_error f a))
