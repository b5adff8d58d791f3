-- ===== src/Profiler/Switching.antt =====
-- Profiler::start and Profiler::stop of src/profiler.cpp as a whole.
use Prim.Native.String.{String}
use async_profiler.Base.{
  Bool, true, false, not, ◌&&◌, List, [], ◌∷◌, Option, none, some, if◌then◌else◌,
}
use async_profiler.Base.Texts.{Text}
use async_profiler.Arguments.{Arguments, no_arguments}
use async_profiler.Arguments.Handlers.Engines.{is_null}
use async_profiler.Arguments.Queries.{event_mask}
use async_profiler.Profiler.{
  State, not_started, idle, running, terminated, Profiler, Answers, no_capture, reserved,
  capture_if, stop_engines, stop_order, start_recording, all_off,
}
use async_profiler.Profiler.Checks.{Facts, start_error, used_stack}

abbrev pub is_running : State → Bool
is_running not_started = false
is_running idle = false
is_running running = true
is_running terminated = false

-- `_state > IDLE`
abbrev pub is_busy : State → Bool
is_busy not_started = false
is_busy idle = false
is_busy running = true
is_busy terminated = true

-- With the answer of reserveCookieCapture, if there is a capture. The options are saved after it.
unfoldable pub with_capture :
    Answers → Arguments → Profiler → Bool → Option String → Profiler × Option String
unfolding start_recording
with_capture ans a p true (some message) = (p, some message)
with_capture ans a p true none =
    start_recording ans a (record p { saved = a; world = record (p.world) { capture = reserved } })
with_capture ans a p false answer = start_recording ans a (record p { saved = a })

-- With the answer of the checks; the stack walking mode in use replaces the one that was asked for.
unfoldable pub when_checked :
    Facts → Answers → Arguments → Profiler → Option String → Profiler × Option String
unfolding with_capture used_stack
when_checked f ans a p (some message) = (p, some message)
when_checked f ans a p none =
    with_capture ans (record a { cstack = used_stack f a a.cstack }) p a.signal_cookie ans.reserve

-- The mask is set before the checks of the options.
unfoldable pub when_capable :
    Facts → Answers → Arguments → Profiler → Option String → Profiler × Option String
unfolding when_checked start_error event_mask
when_capable f ans a p (some message) = (p, some message)
when_capable f ans a p none =
    let q = record p { mask = event_mask a } in when_checked f ans a q (start_error f q.mask a)

unfoldable pub start : Facts → Answers → Arguments → Profiler → Profiler × Option String
unfolding when_capable
start f ans a p =
    if is_busy p.state
    then (p, some "Profiler already started")
    else when_capable f ans a p f.jvm_error

-- The profiler when it has stopped.
unfoldable pub halted : Profiler → Profiler
unfolding stop_engines
halted p = record p {
  state = idle;
  world = record (stop_engines p.mask stop_order p.world) {
    traps = false;
    hooks = false;
    thread_events = false;
    timer = false;
    recording = false;
    capture = capture_if p.saved.signal_cookie no_capture (p.world.capture);
  };
}

-- `reason` is the one that an identity-guarded stop gives.
unfoldable pub stop : Answers → Option Text → Profiler → Profiler × Option String
unfolding halted
stop ans reason p =
    if not (is_running p.state)
    then (p, some "Profiler is not active")
    else if p.saved.signal_cookie && is_null reason
    then (p, some "active signalcookie capture requires identity-guarded stop")
    else (halted p, if ans.finalized then none else some "Failed to finalize JFR recording")

-- A call of the profiler from outside.
pub data Command : Type 0 where
  starts : Facts → Answers → Arguments → Command
  stops : Answers → Option Text → Command

unfoldable pub perform : Command → Profiler → Profiler
unfolding start stop
perform (starts f ans a) p = (start f ans a p).0
perform (stops ans reason) p = (stop ans reason p).0

unfoldable pub perform_all : List Command → Profiler → Profiler
unfolding perform
perform_all [] p = p
perform_all (c ∷ cs) p = perform_all cs (perform c p)

-- The profiler after its construction and the load of the agent.
abbrev pub initial : Profiler
initial = record { state = not_started; mask = 0; saved = no_arguments; world = all_off }
