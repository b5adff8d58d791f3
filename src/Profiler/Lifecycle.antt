-- ===== src/Profiler/Lifecycle.antt =====
-- The profiler of src/profiler.cpp over any sequence of starts and stops.
use Prim.Native.String.{String}
use async_profiler.Base.{
  ◌≡◌, refl, sym, ◌∙◌, ap, Bool, true, false, not, ◌&&◌, List, [], ◌∷◌, Option, none, some,
  if◌then◌else◌, if_cases,
}
use mathlib.Core.Bool.{true≢false}
use async_profiler.Base.Texts.{Text}
use async_profiler.Arguments.{Arguments}
use async_profiler.Arguments.Queries.{event_mask, is_jfr}
use async_profiler.Arguments.Handlers.Engines.{is_null}
use async_profiler.Profiler.{
  State, not_started, idle, running, terminated, World, Profiler, Answers, Capture, no_capture,
  reserved, published, capture_if, has_event, stop_order, start_recording,
}
use async_profiler.Profiler.Checks.{Facts, start_error, used_stack}
use async_profiler.Profiler.Switching.{
  is_running, is_busy, with_capture, when_checked, when_capable, start, stop, halted, Command,
  starts, stops, perform, perform_all, initial,
}
use async_profiler.Profiler.Starting.{member, stop_engines_lem}
use async_profiler.Profiler.Outcomes.{
  IsQuiet, IsActive, IsConsistent, IsReserved, Settled, answers_outcome, everyone_stops,
  nothing_left,
}

ready_capture :
    (a : Arguments) (w : World) (c : Capture)
    → IsQuiet w
    → c ≡ capture_if a.signal_cookie reserved no_capture
    → IsReserved a (record w { capture = c })
ready_capture a w c q e = record {
  engines = q.engines;
  traps = q.traps;
  hooks = q.hooks;
  recording = q.recording;
  thread_events = q.thread_events;
  timer = q.timer;
  capture = e;
}

capture_outcome :
    (ans : Answers) (a : Arguments) (p : Profiler) (cookie : Bool) (answer : Option String)
    → a.signal_cookie ≡ cookie
    → IsQuiet p.world
    → Settled a p (with_capture ans a p cookie answer)
unfolding with_capture start_recording
capture_outcome ans a p true (some message) e q = (refl, q)
capture_outcome ans a p true none e q =
    answers_outcome ans a (record p { saved = a; world = record (p.world) { capture = reserved } })
      ans.traps (if is_jfr a.output then ans.recording else none)
      (ready_capture a p.world reserved q
        (sym (ap (λ (b : Bool). capture_if b reserved no_capture) e)))
      refl
capture_outcome ans a p false answer e q =
    answers_outcome ans a (record p { saved = a }) ans.traps
      (if is_jfr a.output then ans.recording else none)
      (ready_capture a p.world p.world.capture q
        (q.capture ∙ sym (ap (λ (b : Bool). capture_if b reserved no_capture) e)))
      refl

-- The options with the stack walking mode that is used.
abbrev pub as_used : Facts → Arguments → Arguments
as_used f a = record a { cstack = used_stack f a a.cstack }

checked_outcome :
    (f : Facts) (ans : Answers) (a : Arguments) (p : Profiler) (answer : Option String)
    → IsQuiet p.world
    → Settled (as_used f a) p (when_checked f ans a p answer)
unfolding when_checked
checked_outcome f ans a p (some message) q = (refl, q)
checked_outcome f ans a p none q =
    capture_outcome ans (record a { cstack = used_stack f a a.cstack }) p a.signal_cookie
      ans.reserve refl q

-- How a start ends: running, for the events and with the options that it was given; or with an error.
abbrev pub StartOutcome : Facts → Arguments → Profiler → Profiler × Option String → Type 0
StartOutcome f a before (after, none) =
    (after.state ≡ running)
    × (after.mask ≡ event_mask a)
    × (after.saved ≡ record a { cstack = used_stack f a a.cstack })
    × IsActive after
StartOutcome f a before (after, some message) = (after.state ≡ before.state) × IsQuiet after.world

outcome_of :
    (f : Facts) (a : Arguments) (p : Profiler) (r : Profiler × Option String)
    → Settled (as_used f a) (record p { mask = event_mask a }) r
    → StartOutcome f a p r
outcome_of f a p (after, none) h = h
outcome_of f a p (after, some message) h = h

capable_outcome :
    (f : Facts) (ans : Answers) (a : Arguments) (p : Profiler) (answer : Option String)
    → IsQuiet p.world
    → StartOutcome f a p (when_capable f ans a p answer)
unfolding when_capable
capable_outcome f ans a p (some message) q = (refl, q)
capable_outcome f ans a p none q =
    let q' : Profiler = record p { mask = event_mask a } in
    let error : Option String = start_error f (event_mask a) a in
    outcome_of f a p (when_checked f ans a q' error) (checked_outcome f ans a q' error q)

not_running : (s : State) → is_busy s ≡ false → is_running s ≡ false
not_running not_started e = refl
not_running idle e = refl
not_running running e = e
not_running terminated e = refl

closed_lem : (b : Bool) → capture_if b no_capture (capture_if b published no_capture) ≡ no_capture
closed_lem true = refl
closed_lem false = refl

running_if : (b : Bool) → not b ≡ false → b ≡ true
running_if true e = refl
running_if false e = sym e

halted-IsQuiet : (p : Profiler) → IsActive p → IsQuiet (halted p).world
unfolding halted
halted-IsQuiet p active = record {
  engines = λ q.
      (stop_engines_lem p.mask stop_order p.world).1 q
      ∙ ap (λ (b : Bool). b && not (member q stop_order && has_event p.mask q)) (active.engines q)
      ∙ ap (λ (b : Bool). has_event p.mask q && not (b && has_event p.mask q)) (everyone_stops q)
      ∙ nothing_left (has_event p.mask q);
  traps = refl;
  hooks = refl;
  recording = refl;
  thread_events = refl;
  timer = refl;
  capture =
      ap (capture_if p.saved.signal_cookie no_capture) active.capture
      ∙ closed_lem p.saved.signal_cookie;
}

halted_idle : (p : Profiler) → (halted p).state ≡ idle
unfolding halted
halted_idle p = refl

-- A stop of a running profiler, unless it is refused because a capture wants a reason, switches off
-- everything that the start switched on, and leaves the profiler idle whether or not the recording
-- could be finalized.
pub stop-IsQuiet :
    (ans : Answers) (reason : Option Text) (p : Profiler)
    → IsConsistent p
    → is_running p.state ≡ true
    → (p.saved.signal_cookie && is_null reason) ≡ false
    → ((stop ans reason p).0.state ≡ idle) × IsQuiet (stop ans reason p).0.world
unfolding stop
stop-IsQuiet ans reason p (quiet, active) runs guarded =
    if_cases (λ (r : Profiler × Option String). (r.0.state ≡ idle) × IsQuiet r.0.world)
      (not (is_running p.state)) _ _ (λ e. absurd (true≢false (sym e ∙ ap not runs)))
      (λ e.
        if_cases (λ (r : Profiler × Option String). (r.0.state ≡ idle) × IsQuiet r.0.world)
          (p.saved.signal_cookie && is_null reason) _ _ (λ g. absurd (true≢false (sym g ∙ guarded)))
          (λ g. (halted_idle p, halted-IsQuiet p (active runs))))

outcome-IsConsistent :
    (f : Facts) (a : Arguments) (p : Profiler) (r : Profiler × Option String)
    → is_running p.state ≡ false
    → StartOutcome f a p r
    → IsConsistent r.0
outcome-IsConsistent f a p (after, none) idle_before (runs, mask, saved, active) =
    ((λ e. absurd (true≢false (sym (ap is_running runs) ∙ e))), λ e. active)
outcome-IsConsistent f a p (after, some message) idle_before (same, quiet) =
    ((λ e. quiet), λ e. absurd (true≢false (sym e ∙ ap is_running same ∙ idle_before)))

start-IsConsistent :
    (f : Facts) (ans : Answers) (a : Arguments) (p : Profiler)
    → IsConsistent p
    → IsConsistent (start f ans a p).0
unfolding start
start-IsConsistent f ans a p h =
    if_cases (λ (r : Profiler × Option String). IsConsistent r.0) (is_busy p.state) _ _ (λ e. h)
      (λ e.
        outcome-IsConsistent f a p (when_capable f ans a p f.jvm_error) (not_running p.state e)
          (capable_outcome f ans a p f.jvm_error (h.0 (not_running p.state e))))

stop-IsConsistent :
    (ans : Answers) (reason : Option Text) (p : Profiler)
    → IsConsistent p
    → IsConsistent (stop ans reason p).0
unfolding stop
stop-IsConsistent ans reason p h =
    if_cases (λ (r : Profiler × Option String). IsConsistent r.0) (not (is_running p.state)) _ _
      (λ e. h)
      (λ e.
        if_cases (λ (r : Profiler × Option String). IsConsistent r.0)
          (p.saved.signal_cookie && is_null reason) _ _ (λ g. h)
          (λ g. (
            (λ q. halted-IsQuiet p (h.1 (running_if (is_running p.state) e))),
            λ r. absurd (true≢false (sym r ∙ ap is_running (halted_idle p))),
          )))

perform-IsConsistent : (c : Command) (p : Profiler) → IsConsistent p → IsConsistent (perform c p)
unfolding perform
perform-IsConsistent (starts f ans a) p h = start-IsConsistent f ans a p h
perform-IsConsistent (stops ans reason) p h = stop-IsConsistent ans reason p h

perform_all_kept :
    (cs : List Command) (p : Profiler) → IsConsistent p → IsConsistent (perform_all cs p)
unfolding perform_all
perform_all_kept [] p h = h
perform_all_kept (c ∷ cs) p h = perform_all_kept cs (perform c p) (perform-IsConsistent c p h)

initial-IsConsistent : IsConsistent initial
initial-IsConsistent = (
  (λ e. record {
    engines = λ q. refl;
    traps = refl;
    hooks = refl;
    recording = refl;
    thread_events = refl;
    timer = refl;
    capture = refl;
  }),
  λ e. absurd (true≢false (sym e)),
)

-- After any sequence of starts and stops, whatever they were given and whatever the other components
-- answered: while the profiler runs, exactly the engines of its event mask run, with the traps, the
-- hooks, the recording, the timer and the capture that the saved options ask for; while it does not run, nothing is
-- switched on.
pub perform_all-IsConsistent : (cs : List Command) → IsConsistent (perform_all cs initial)
perform_all-IsConsistent cs = perform_all_kept cs initial initial-IsConsistent
