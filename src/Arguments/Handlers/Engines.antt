-- ===== src/Arguments/Handlers/Engines.antt =====
-- What the cases of `parse` (src/arguments.cpp) do with an option and its value.
-- Each yields the options and the message that it leaves, if any.
use async_profiler.Base.{
  ℕ, ◌-◌, ◌%◌, ◌^◌, Bool, true, false, not, ◌&&◌, [], ◌∷◌, ◌++◌, Option, none, some, if◌then◌else◌,
  ◌==◌,
}
use async_profiler.Base.Int.{ℤ, pos, negsuc, ltb_ℤ}
use async_profiler.Base.Texts.{Text, text_eq}
use async_profiler.Arguments.{
  Arguments, default_lock_interval, default_alloc_interval, default_proc_interval, event_cpu,
  event_alloc, event_nativemem, event_lock, event_nativelock,
}
use async_profiler.Arguments.Names.{
  EngineArg, event_arg, timeout_arg, loop_arg, memlimit_arg, alloc_arg, tlab_arg, nativemem_arg,
  nofree_arg, trace_arg, lock_arg, nativelock_arg, wall_arg, proc_arg, cpu_arg, all_arg,
  interval_arg,
}
use async_profiler.Arguments.Values.{
  Multipliers, parse_units, parse_timeout, nanos, bytes, seconds, universal,
}
use async_profiler.Arguments.Handlers.Formats.{Handled, done, fails, is_negative}

-- `if (x < 0) x = n`
abbrev pub unless_set : ℤ → ℕ → ℤ
unless_set x n = if is_negative x then pos n else x

abbrev pub is_null : Option Text → Bool
is_null none = true
is_null (some _) = false

-- The value of `event=`: an engine of its own, or the event to be sampled, once.
unfoldable pub on_event_name : Text → Arguments → Handled
on_event_name value a =
    if text_eq value event_alloc
    then done (record a { alloc = unless_set a.alloc 0 })
    else if text_eq value event_nativemem
    then done (record a { nativemem = unless_set a.nativemem 0 })
    else if text_eq value event_lock
    then done (record a { lock = unless_set a.lock default_lock_interval })
    else if text_eq value event_nativelock
    then done (record a { nativelock = unless_set a.nativelock default_lock_interval })
    else if not (is_null a.event) && not a.all
    then fails a "Duplicate event argument"
    else done (record a { event = some value })

unfoldable pub on_event : Option Text → Arguments → Handled
unfolding on_event_name
on_event none a = fails a "event must not be empty"
on_event (some []) a = fails a "event must not be empty"
on_event (some (c ∷ cs)) a = on_event_name (c ∷ cs) a

abbrev pub is_minus_one : ℤ → Bool
is_minus_one (pos n) = false
is_minus_one (negsuc n) = n == 0

unfoldable pub on_timeout : Option Text → Arguments → Handled
on_timeout none a = fails a "Invalid timeout"
on_timeout (some value) a =
    let n = parse_timeout value in
    let b = record a { timeout = n } in if is_minus_one n then fails b "Invalid timeout" else done b

unfoldable pub on_loop : Option Text → Arguments → Handled
on_loop none a = fails a "Invalid loop duration"
on_loop (some value) a =
    let n = parse_timeout value in
    let b = record a { loop = n } in
    if is_minus_one n then fails b "Invalid loop duration" else done b

-- `value == NULL ? other : parseUnits(value, multipliers)`
abbrev pub units_or : ℕ → Multipliers → Option Text → ℤ
units_or other multipliers none = pos other
units_or other multipliers (some value) = parse_units value multipliers

-- The value of a `long` as a `size_t`.
abbrev pub size_of_long : ℤ → ℕ
size_of_long (pos n) = n % 2 ^ 64
size_of_long (negsuc n) = 2 ^ 64 - 1 - n % 2 ^ 64

unfoldable pub on_cpu : Arguments → Handled
on_cpu a =
    if is_null a.event
    then done (record a { event = some event_cpu })
    else fails a "Duplicate event argument"

-- All engines that are not set get their default; `is_linux` is OS::isLinux().
unfoldable pub on_all : Bool → Arguments → Handled
on_all is_linux a = done (record a {
  all = true;
  live = true;
  wall = unless_set a.wall 0;
  alloc = unless_set a.alloc 0;
  lock = unless_set a.lock default_lock_interval;
  nativelock = unless_set a.nativelock default_lock_interval;
  nativemem = unless_set a.nativemem default_alloc_interval;
  proc = if is_linux then unless_set a.proc default_proc_interval else a.proc;
  event = if is_null a.event && is_linux then some event_cpu else a.event;
})

unfoldable pub on_interval : Option Text → Arguments → Handled
on_interval none a = fails a "Invalid interval"
on_interval (some value) a =
    let n = parse_units value universal in
    let b = record a { interval = n } in
    if ltb_ℤ (pos 0) n then done b else fails b "Invalid interval"

unfoldable pub on_engine : Bool → EngineArg → Option Text → Arguments → Handled
unfolding on_event on_timeout on_loop on_cpu on_all on_interval
on_engine is_linux event_arg value a = on_event value a
on_engine is_linux timeout_arg value a = on_timeout value a
on_engine is_linux loop_arg value a = on_loop value a
on_engine is_linux memlimit_arg value a =
    done (record a { mem_limit = size_of_long (units_or 0 bytes value) })
on_engine is_linux alloc_arg value a = done (record a { alloc = units_or 0 bytes value })
on_engine is_linux tlab_arg value a = done (record a { tlab = true })
on_engine is_linux nativemem_arg value a = done (record a { nativemem = units_or 0 bytes value })
on_engine is_linux nofree_arg value a = done (record a { nofree = true })
on_engine is_linux trace_arg value a = done (record a { trace = a.trace ++ (value ∷ []) })
on_engine is_linux lock_arg value a =
    done (record a { lock = units_or default_lock_interval nanos value })
on_engine is_linux nativelock_arg value a =
    done (record a { nativelock = units_or default_lock_interval nanos value })
on_engine is_linux wall_arg value a = done (record a { wall = units_or 0 nanos value })
on_engine is_linux proc_arg value a =
    done (record a { proc = units_or default_proc_interval seconds value })
on_engine is_linux cpu_arg value a = on_cpu a
on_engine is_linux all_arg value a = on_all is_linux a
on_engine is_linux interval_arg value a = on_interval value a
