-- ===== src/Profiler/Tests.antt =====
-- Tests and examples of Profiler.
use Prim.Native.String.{String}
use async_profiler.Base.{◌≡◌, refl, true, false, List, [], ◌∷◌, Option, none, some}
use async_profiler.Base.Int.{pos}
use async_profiler.Arguments.{Arguments, no_arguments, event_cpu, jfr}
use async_profiler.Profiler.{
  Answers, Part, main, alloc, lock, wall, nativemem, nativelock, trace, idle,
}
use async_profiler.Profiler.Checks.{Facts, perf_events}
use async_profiler.Profiler.Switching.{
  start, stop, Command, starts, stops, perform_all, initial, is_running,
}
use async_profiler.Profiler.Outcomes.{IsConsistent, IsQuiet}
use async_profiler.Profiler.Lifecycle.{stop-IsQuiet, perform_all-IsConsistent}

abbrev hotspot : Facts
hotspot = record {
  jvm_error = none;
  vm_loaded = true;
  cookie_error = none;
  cookie_signal = 0;
  connects = true;
  is_linux = true;
  has_buffers = true;
  engine_kind = perf_events;
  dwarf_supported = true;
  has_stack_structs = true;
  is_openj9 = false;
}

abbrev willing : Answers
willing = record {
  reserve = none;
  traps = none;
  recording = none;
  engine = λ p. none;
  finalized = true;
}

-- The tracer of locks cannot be started.
abbrev lock_fails : Part → Option String
lock_fails main = none
lock_fails alloc = none
lock_fails lock = some "Could not start"
lock_fails wall = none
lock_fails nativemem = none
lock_fails nativelock = none
lock_fails trace = none

abbrev without_locks : Answers
without_locks = record willing { engine = lock_fails }

abbrev options : Arguments
options = record no_arguments {
  event = some event_cpu;
  lock = pos 10000;
  wall = pos 0;
  output = jfr;
}

abbrev attempt : List Command
attempt = starts hotspot without_locks options ∷ []

abbrev session : List Command
session = starts hotspot without_locks options ∷ starts hotspot willing options ∷ []

attempt_fails : (start hotspot without_locks options initial).1 ≡ some "Could not start"
unfolding start
attempt_fails = refl

attempt_clean : (perform_all attempt initial).world.engines main ≡ false
unfolding perform_all
attempt_clean = refl

session_runs : is_running (perform_all session initial).state ≡ true
unfolding perform_all
session_runs = refl

wall_runs : (perform_all session initial).world.engines wall ≡ true
unfolding perform_all
wall_runs = refl

session_guarded : (perform_all session initial).saved.signal_cookie ≡ false
unfolding perform_all
session_guarded = refl

stop-IsQuiet_example :
    ((stop willing none (perform_all session initial)).0.state ≡ idle)
    × IsQuiet (stop willing none (perform_all session initial)).0.world
unfolding perform_all
stop-IsQuiet_example =
    stop-IsQuiet willing none (perform_all session initial) (perform_all-IsConsistent session)
      session_runs refl

perform_all-IsConsistent_example : IsConsistent (perform_all (stops willing none ∷ session) initial)
perform_all-IsConsistent_example = perform_all-IsConsistent (stops willing none ∷ session)
