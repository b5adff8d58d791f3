-- ===== src/Profiler.antt =====
-- src/profiler.cpp: how Profiler::start and Profiler::stop switch the profiler and what they drive on
-- and off. The other components are seen as what is switched on; a call of theirs that can fail has
-- its answer among the parameters. Counters, buffers, timers' times and names are left out.
pub mod Checks
pub mod Switching
pub mod Starting
pub mod Outcomes
pub mod Lifecycle
mod Tests
use Prim.Native.String.{String}
use async_profiler.Base.{
  ℕ, zero, suc, ◌+◌, ◌/◌, ◌%◌, Bool, true, false, not, ◌&&◌, ◌||◌, List, [], ◌∷◌, Option, none,
  some, if◌then◌else◌, ◌==◌, bit_and,
}
use async_profiler.Base.Int.{ℤ, pos, negsuc}
use async_profiler.Arguments.{Arguments}
use async_profiler.Arguments.Parse.{is_nil}
use async_profiler.Arguments.Queries.{event_mask, is_jfr}

pub data State : Type 0 where
  not_started idle running terminated : State

-- The engines: the one of the event, and those of the other categories.
pub data Part : Type 0 where
  main alloc lock wall nativemem nativelock trace : Part

abbrev pub part_number : Part → ℕ
part_number main = 0
part_number alloc = 1
part_number lock = 2
part_number wall = 3
part_number nativemem = 4
part_number nativelock = 5
part_number trace = 6

abbrev pub same_part : Part → Part → Bool
same_part p q = part_number p == part_number q

-- The capture by signal cookies as the profiler drives it.
pub data Capture : Type 0 where
  no_capture reserved published stopped : Capture

-- What is switched on.
pub record World : Type 0 where
  pub engines : Part → Bool
  pub traps : Bool
  pub hooks : Bool
  pub recording : Bool
  pub thread_events : Bool
  pub timer : Bool
  pub capture : Capture

abbrev pub all_off : World
all_off = record {
  engines = λ p. false;
  traps = false;
  hooks = false;
  recording = false;
  thread_events = false;
  timer = false;
  capture = no_capture;
}

-- `_state`, `_event_mask`, the saved options and the rest of the world.
pub record Profiler : Type 0 where
  pub state : State
  pub mask : ℕ
  pub saved : Arguments
  pub world : World

-- What the calls of one start or stop answer: an error, or none.
pub record Answers : Type 0 where
  pub reserve : Option String
  pub traps : Option String
  pub recording : Option String
  pub engine : Part → Option String
  pub finalized : Bool

-- `hasEvent(category)`, by the bit of the category.
unfoldable pub has_event : ℕ → Part → Bool
has_event mask main = true
has_event mask alloc = not (bit_and mask 2 == 0)
has_event mask lock = not (bit_and mask 4 == 0)
has_event mask wall = not (bit_and mask 8 == 0)
has_event mask nativemem = not (bit_and mask 16 == 0)
has_event mask nativelock = not (bit_and mask 32 == 0)
has_event mask trace = not (bit_and mask 64 == 0)

unfoldable pub set_engine : Part → Bool → World → World
set_engine p on w = record w { engines = λ q. if same_part p q then on else w.engines q }

-- `if (hasEvent(...)) engine.stop()` for some of the engines, in their order.
unfoldable pub stop_engines : ℕ → List Part → World → World
unfolding set_engine has_event
stop_engines mask [] w = w
stop_engines mask (p ∷ ps) w =
    stop_engines mask ps (if has_event mask p then set_engine p false w else w)

-- The engines are started in this order, up to the first that fails, which comes with its message.
unfoldable pub start_engines : Answers → ℕ → List Part → World → World × Option (Part × String)
unfolding set_engine has_event
start_engines ans mask [] w = (w, none)
start_engines ans mask (p ∷ ps) w =
    if has_event mask p
    then (elim (ans.engine p) [
      | none ↦ start_engines ans mask ps (set_engine p true w)
      | some message ↦ (w, some (p, message))
    ])
    else start_engines ans mask ps w

abbrev pub start_order : List Part
start_order = main ∷ alloc ∷ lock ∷ wall ∷ nativemem ∷ nativelock ∷ trace ∷ []

abbrev pub stop_order : List Part
stop_order = wall ∷ lock ∷ alloc ∷ nativemem ∷ nativelock ∷ trace ∷ main ∷ []

abbrev pub capture_if : Bool → Capture → Capture → Capture
capture_if cookie c d = if cookie then c else d

-- The labels at the end of `start`.
pub data Label : Type 0 where
  error1 error2 error3 error4 error5 error6 error7 : Label

-- Where each engine goes when it cannot be started.
unfoldable pub label_of : Part → Label
label_of main = error1
label_of alloc = error2
label_of lock = error3
label_of wall = error4
label_of nativemem = error5
label_of nativelock = error6
label_of trace = error7

-- `if (hasEvent(...)) engine.stop()`
unfoldable pub stop_if_asked : ℕ → Part → World → World
unfolding set_engine has_event
stop_if_asked mask p w = if has_event mask p then set_engine p false w else w

-- From each label on, through those below it, as far as `error1`.
unfoldable pub from_error2 : World → World
unfolding set_engine
from_error2 w = set_engine main false w

unfoldable pub from_error3 : ℕ → World → World
unfolding from_error2 stop_if_asked
from_error3 mask w = from_error2 (stop_if_asked mask alloc w)

unfoldable pub from_error4 : ℕ → World → World
unfolding from_error3 stop_if_asked
from_error4 mask w = from_error3 mask (stop_if_asked mask lock w)

unfoldable pub from_error5 : ℕ → World → World
unfolding from_error4 stop_if_asked
from_error5 mask w = from_error4 mask (stop_if_asked mask wall w)

unfoldable pub from_error6 : ℕ → World → World
unfolding from_error5 stop_if_asked
from_error6 mask w = from_error5 mask (stop_if_asked mask nativemem w)

unfoldable pub from_error7 : ℕ → World → World
unfolding from_error6 stop_if_asked
from_error7 mask w = from_error6 mask (stop_if_asked mask nativelock w)

unfoldable pub fall_through : ℕ → Label → World → World
unfolding from_error2 from_error3 from_error4 from_error5 from_error6 from_error7
fall_through mask error1 w = w
fall_through mask error2 w = from_error2 w
fall_through mask error3 w = from_error3 mask w
fall_through mask error4 w = from_error4 mask w
fall_through mask error5 w = from_error5 mask w
fall_through mask error6 w = from_error6 mask w
fall_through mask error7 w = from_error7 mask w

-- From the label `error1` on, after the engines have been stopped.
unfoldable pub abort_start : Arguments → World → World
abort_start a w = record w {
  traps = false;
  hooks = false;
  recording = false;
  capture = capture_if a.signal_cookie no_capture w.capture;
}

abbrev pub is_zero : ℤ → Bool
is_zero (pos n) = n == 0
is_zero (negsuc n) = false

unfoldable pub needs_timer : Arguments → Bool
needs_timer a = not (is_zero a.timeout) || (not (is_zero a.loop) || is_jfr a.output)

-- After the engines, or from the label of the one that failed on.
unfoldable pub finish_start :
    ℕ → Arguments → Profiler → World × Option (Part × String) → Profiler × Option String
unfolding label_of fall_through abort_start needs_timer
finish_start mask a p (w, some (failed, message)) =
    (record p { world = abort_start a (fall_through mask (label_of failed) w) }, some message)
finish_start mask a p (w, none) = (
  record p {
    state = running;
    world = record w {
      thread_events = true;
      timer = needs_timer a || w.timer;
      capture = capture_if a.signal_cookie published w.capture;
    };
  },
  none,
)

-- With the answers of installTraps and of the recording: a failure ends the capture.
unfoldable pub with_answers :
    Answers → Arguments → Profiler → Option String → Option String → Profiler × Option String
unfolding start_engines finish_start
with_answers ans a p (some message) recorded = (
  record p {
    world = record (p.world) { capture = capture_if a.signal_cookie no_capture (p.world.capture) };
  },
  some message,
)
with_answers ans a p none (some message) = (
  record p {
    world = record (p.world) {
      traps = false;
      hooks = false;
      capture = capture_if a.signal_cookie no_capture (p.world.capture);
    };
  },
  some message,
)
with_answers ans a p none none = finish_start p.mask a p (
    start_engines ans p.mask start_order
      (record (p.world) { traps = true; hooks = true; recording = is_jfr a.output }))

-- The traps, the hooks, the recording if the output is one, and the engines.
unfoldable pub start_recording : Answers → Arguments → Profiler → Profiler × Option String
unfolding with_answers
start_recording ans a p =
    with_answers ans a p ans.traps (if is_jfr a.output then ans.recording else none)
