-- ===== src/Profiler/Outcomes.antt =====
-- How the parts of Profiler::start (src/profiler.cpp) that switch things on end.
use Prim.Native.String.{String}
use async_profiler.Base.{
  ◌≡◌, refl, sym, ◌∙◌, ap, subst, Bool, true, false, not, ◌&&◌, ◌||◌, [], ◌∷◌, Option, none, some,
}
use async_profiler.Arguments.{Arguments}
use async_profiler.Arguments.Queries.{is_jfr}
use async_profiler.Profiler.{
  running, Part, main, alloc, lock, wall, nativemem, nativelock, trace, World, Profiler, Answers,
  no_capture, reserved, published, capture_if, has_event, stop_engines, start_engines, start_order,
  stop_order, needs_timer, abort_start, finish_start, with_answers,
}
use async_profiler.Profiler.Switching.{is_running}
use async_profiler.Profiler.Starting.{
  member, before_part, InOrder, fall_through_lem, Started, start_engines-Started, stop_engines_lem,
}

-- Nothing is switched on.
pub record IsQuiet (w : World) : Type 0 where
  pub engines : (q : Part) → w.engines q ≡ false
  pub traps : w.traps ≡ false
  pub hooks : w.hooks ≡ false
  pub recording : w.recording ≡ false
  pub thread_events : w.thread_events ≡ false
  pub timer : w.timer ≡ false
  pub capture : w.capture ≡ no_capture

-- The engines of the mask run and no others; there is a capture only if the saved options ask for one.
pub record IsActive (p : Profiler) : Type 0 where
  pub engines : (q : Part) → p.world.engines q ≡ has_event p.mask q
  pub traps : p.world.traps ≡ true
  pub hooks : p.world.hooks ≡ true
  pub recording : p.world.recording ≡ is_jfr p.saved.output
  pub thread_events : p.world.thread_events ≡ true
  pub timer : p.world.timer ≡ needs_timer p.saved
  pub capture : p.world.capture ≡ capture_if p.saved.signal_cookie published no_capture

abbrev pub IsConsistent : Profiler → Type 0
IsConsistent p =
    (is_running p.state ≡ false → IsQuiet p.world) × (is_running p.state ≡ true → IsActive p)

-- How a start from a quiet state ends, once the event mask and the options are settled.
abbrev pub Settled : Arguments → Profiler → Profiler × Option String → Type 0
Settled a before (after, none) =
    (after.state ≡ running) × (after.mask ≡ before.mask) × (after.saved ≡ a) × IsActive after
Settled a before (after, some message) = (after.state ≡ before.state) × IsQuiet after.world

everyone_started :
    (q : Part) → member q (trace ∷ nativelock ∷ nativemem ∷ wall ∷ lock ∷ alloc ∷ main ∷ []) ≡ true
everyone_started main = refl
everyone_started alloc = refl
everyone_started lock = refl
everyone_started wall = refl
everyone_started nativemem = refl
everyone_started nativelock = refl
everyone_started trace = refl

pub everyone_stops : (q : Part) → member q stop_order ≡ true
everyone_stops main = refl
everyone_stops alloc = refl
everyone_stops lock = refl
everyone_stops wall = refl
everyone_stops nativemem = refl
everyone_stops nativelock = refl
everyone_stops trace = refl

pub nothing_left : (x : Bool) → (x && not x) ≡ false
nothing_left true = refl
nothing_left false = refl

-- What is known of the world before the engines are started.
pub record IsReady (a : Arguments) (w : World) : Type 0 where
  pub engines : (q : Part) → w.engines q ≡ false
  pub traps : w.traps ≡ true
  pub hooks : w.hooks ≡ true
  pub recording : w.recording ≡ is_jfr a.output
  pub thread_events : w.thread_events ≡ false
  pub timer : w.timer ≡ false
  pub capture : w.capture ≡ capture_if a.signal_cookie reserved no_capture

pub published_lem :
    (b : Bool)
    → capture_if b published (capture_if b reserved no_capture) ≡ capture_if b published no_capture
published_lem true = refl
published_lem false = refl

aborted_lem : (b : Bool) → capture_if b no_capture (capture_if b reserved no_capture) ≡ no_capture
aborted_lem true = refl
aborted_lem false = refl

or_false : (b : Bool) → (b || false) ≡ b
or_false true = refl
or_false false = refl

finish_outcome :
    (a : Arguments) (p : Profiler) (w : World) (result : World × Option (Part × String))
    → IsReady a w
    → p.saved ≡ a
    → Started p.mask (trace ∷ nativelock ∷ nativemem ∷ wall ∷ lock ∷ alloc ∷ main ∷ []) w result
    → Settled a p (finish_start p.mask a p result)
unfolding finish_start abort_start
finish_outcome a p w (w', none) ready saved (on, rest) =
    let active : IsActive (finish_start p.mask a p (w', none)).0 = record {
      engines = λ q. on q ∙ ap (λ (b : Bool). b && has_event p.mask q) (everyone_started q);
      traps = ap (λ (v : World). v.traps) rest ∙ ready.traps;
      hooks = ap (λ (v : World). v.hooks) rest ∙ ready.hooks;
      recording =
          ap (λ (v : World). v.recording) rest
          ∙ ready.recording
          ∙ ap (λ (x : Arguments). is_jfr x.output) (sym saved);
      thread_events = refl;
      timer =
          ap (λ (b : Bool). needs_timer a || b) (ap (λ (v : World). v.timer) rest ∙ ready.timer)
          ∙ or_false (needs_timer a)
          ∙ ap needs_timer (sym saved);
      capture =
          ap (capture_if a.signal_cookie published)
            (ap (λ (v : World). v.capture) rest ∙ ready.capture)
          ∙ published_lem a.signal_cookie
          ∙ ap (λ (x : Arguments). capture_if x.signal_cookie published no_capture) (sym saved);
    } in
    (refl, refl, saved, active)
finish_outcome a p w (w', some (failed, message)) ready saved (on, rest) =
    let started = before_part failed in
    let (rest', others) = stop_engines_lem p.mask started w' in
    let quiet : IsQuiet (abort_start a (stop_engines p.mask started w')) = record {
      engines = λ q.
          others q
          ∙ ap (λ (b : Bool). b && not (member q started && has_event p.mask q)) (on q)
          ∙ nothing_left (member q started && has_event p.mask q);
      traps = refl;
      hooks = refl;
      recording = refl;
      thread_events =
          ap (λ (v : World). v.thread_events) rest'
          ∙ ap (λ (v : World). v.thread_events) rest
          ∙ ready.thread_events;
      timer = ap (λ (v : World). v.timer) rest' ∙ ap (λ (v : World). v.timer) rest ∙ ready.timer;
      capture =
          ap (capture_if a.signal_cookie no_capture) (
            ap (λ (v : World). v.capture) rest'
            ∙ ap (λ (v : World). v.capture) rest
            ∙ ready.capture)
          ∙ aborted_lem a.signal_cookie;
    } in
    (
      refl,
      subst (λ (v : World). IsQuiet (abort_start a v)) (sym (fall_through_lem p.mask failed w'))
          quiet,
    )

-- Quiet but for a capture that is reserved, if there is one.
pub record IsReserved (a : Arguments) (w : World) : Type 0 where
  pub engines : (q : Part) → w.engines q ≡ false
  pub traps : w.traps ≡ false
  pub hooks : w.hooks ≡ false
  pub recording : w.recording ≡ false
  pub thread_events : w.thread_events ≡ false
  pub timer : w.timer ≡ false
  pub capture : w.capture ≡ capture_if a.signal_cookie reserved no_capture

start_order-InOrder : InOrder [] start_order
start_order-InOrder = (refl, (refl, (refl, (refl, (refl, (refl, (refl, tt)))))))

pub answers_outcome :
    (ans : Answers) (a : Arguments) (p : Profiler) (trapped recorded : Option String)
    → IsReserved a p.world
    → p.saved ≡ a
    → Settled a p (with_answers ans a p trapped recorded)
unfolding with_answers
answers_outcome ans a p (some message) recorded r saved = (
  refl,
  record {
    engines = r.engines;
    traps = r.traps;
    hooks = r.hooks;
    recording = r.recording;
    thread_events = r.thread_events;
    timer = r.timer;
    capture = ap (capture_if a.signal_cookie no_capture) r.capture ∙ aborted_lem a.signal_cookie;
  },
)
answers_outcome ans a p none (some message) r saved = (
  refl,
  record {
    engines = r.engines;
    traps = refl;
    hooks = refl;
    recording = r.recording;
    thread_events = r.thread_events;
    timer = r.timer;
    capture = ap (capture_if a.signal_cookie no_capture) r.capture ∙ aborted_lem a.signal_cookie;
  },
)
answers_outcome ans a p none none r saved =
    let w : World = record (p.world) { traps = true; hooks = true; recording = is_jfr a.output } in
    finish_outcome a p w (start_engines ans p.mask start_order w)
      (record {
        engines = r.engines;
        traps = refl;
        hooks = refl;
        recording = refl;
        thread_events = r.thread_events;
        timer = r.timer;
        capture = r.capture;
      })
      saved (start_engines-Started ans p.mask [] start_order w start_order-InOrder r.engines)
