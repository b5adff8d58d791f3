-- ===== src/Profiler/Starting.antt =====
-- Which engines run in the course of Profiler::start and Profiler::stop of src/profiler.cpp.
use Prim.Native.String.{String}
use async_profiler.Base.{
  ℕ, zero, suc, ◌≡◌, refl, sym, ◌∙◌, ap, subst, Bool, true, false, not, ◌&&◌, ◌||◌, List, [], ◌∷◌,
  Option, none, some, if_cases, Bool-cases, inl, inr, ==_iff,
}
use async_profiler.Profiler.{
  Part, main, alloc, lock, wall, nativemem, nativelock, trace, part_number, same_part, World,
  Answers, has_event, set_engine, stop_engines, start_engines, label_of, fall_through,
  stop_if_asked,
}

abbrev pub member : Part → List Part → Bool
member q [] = false
member q (p ∷ ps) = same_part p q || member q ps

abbrev part_at : ℕ → Part
part_at zero = main
part_at (suc zero) = alloc
part_at (suc (suc zero)) = lock
part_at (suc (suc (suc zero))) = wall
part_at (suc (suc (suc (suc zero)))) = nativemem
part_at (suc (suc (suc (suc (suc zero))))) = nativelock
part_at _ = trace

part_at_number : (p : Part) → part_at (part_number p) ≡ p
part_at_number main = refl
part_at_number alloc = refl
part_at_number lock = refl
part_at_number wall = refl
part_at_number nativemem = refl
part_at_number nativelock = refl
part_at_number trace = refl

same_part_eq : (p q : Part) → same_part p q ≡ true → p ≡ q
same_part_eq p q e =
    sym (part_at_number p)
    ∙ ap part_at ((==_iff (part_number p) (part_number q)).0 e)
    ∙ part_at_number q

and_false : (x : Bool) → (x && false) ≡ false
and_false true = refl
and_false false = refl

-- The engines that run are those of the list whose event is asked for.
abbrev pub On : ℕ → List Part → World → Type 0
On mask started w = (q : Part) → w.engines q ≡ (member q started && has_event mask q)

-- Nothing but the engines is changed.
abbrev pub SameRest : World → World → Type 0
SameRest w w' = w' ≡ record w { engines = w'.engines }

abbrev rev_append : List Part → List Part → List Part
rev_append [] started = started
rev_append (p ∷ ps) started = rev_append ps (p ∷ started)

-- The engines that a start leaves behind when one fails, the last one first.
abbrev pub before_part : Part → List Part
before_part main = []
before_part alloc = main ∷ []
before_part lock = alloc ∷ main ∷ []
before_part wall = lock ∷ alloc ∷ main ∷ []
before_part nativemem = wall ∷ lock ∷ alloc ∷ main ∷ []
before_part nativelock = nativemem ∷ wall ∷ lock ∷ alloc ∷ main ∷ []
before_part trace = nativelock ∷ nativemem ∷ wall ∷ lock ∷ alloc ∷ main ∷ []

-- What starting the engines leaves: all of them run if none failed, or those before the one that did.
abbrev pub Started : ℕ → List Part → World → World × Option (Part × String) → Type 0
Started mask everything w (w', none) = On mask everything w' × SameRest w w'
Started mask everything w (w', some (p, message)) = On mask (before_part p) w' × SameRest w w'

-- The parts of a list stand in the order of the start, behind those that were started.
abbrev pub InOrder : List Part → List Part → Type 0
InOrder started [] = Unit
InOrder started (p ∷ ps) = (before_part p ≡ started) × InOrder (p ∷ started) ps

engine_added :
    (mask : ℕ) (p : Part) (started : List Part) (w : World)
    → has_event mask p ≡ true
    → On mask started w
    → On mask (p ∷ started) (set_engine p true w)
unfolding set_engine
engine_added mask p started w asked on q = elim (Bool-cases (same_part p q)) [
  | inl same ↦
      let asked' : has_event mask q ≡ true =
        subst (λ x. has_event mask x ≡ true) (same_part_eq p q same) asked in
      rw (same, asked') refl
  | inr other ↦ rw other (on q)
]

skipped :
    (mask : ℕ) (p : Part) (started : List Part) (w : World)
    → has_event mask p ≡ false
    → On mask started w
    → On mask (p ∷ started) w
skipped mask p started w unasked on q = elim (Bool-cases (same_part p q)) [
  | inl same ↦
      let unasked' : has_event mask q ≡ false =
        subst (λ x. has_event mask x ≡ false) (same_part_eq p q same) unasked in
      rw (same, on q, unasked') (and_false (member q started))
  | inr other ↦ rw other (on q)
]

answered :
    (mask : ℕ) (everything : List Part) (p : Part) (w : World) (answer : Option String)
    (later : World × Option (Part × String))
    → On mask (before_part p) w
    → Started mask everything w later
    → Started mask everything w (elim answer as (λ _. World × Option (Part × String)) [
      | none ↦ later
      | some message ↦ (w, some (p, message))
    ])
answered mask everything p w none later on h = h
answered mask everything p w (some message) later on h = (on, refl)

-- Only the engines were changed, so that the rest may be compared with the world before the last one.
from_engine :
    (mask : ℕ) (everything : List Part) (p : Part) (w : World)
    (result : World × Option (Part × String))
    → Started mask everything (set_engine p true w) result
    → Started mask everything w result
unfolding set_engine
from_engine mask everything p w (w', none) (on, rest) = (on, rest)
from_engine mask everything p w (w', some (q, message)) (on, rest) = (on, rest)

pub start_engines-Started :
    (ans : Answers) (mask : ℕ) (started ps : List Part) (w : World)
    → InOrder started ps
    → On mask started w
    → Started mask (rev_append ps started) w (start_engines ans mask ps w)
unfolding start_engines
start_engines-Started ans mask started [] w order on = (on, refl)
start_engines-Started ans mask started (p ∷ ps) w (here, order) on =
    if_cases (Started mask (rev_append ps (p ∷ started)) w) (has_event mask p) _ _
      (λ asked.
        answered mask (rev_append ps (p ∷ started)) p w (ans.engine p)
          (start_engines ans mask ps (set_engine p true w)) (subst (λ l. On mask l w) (sym here) on)
          (from_engine mask (rev_append ps (p ∷ started)) p w
            (start_engines ans mask ps (set_engine p true w))
            (start_engines-Started ans mask (p ∷ started) ps (set_engine p true w) order
              (engine_added mask p started w asked on))))
      (λ unasked.
        start_engines-Started ans mask (p ∷ started) ps w order
          (skipped mask p started w unasked on))

-- What stopping engines leaves: the others.
abbrev Stopped : ℕ → List Part → World → World → Type 0
Stopped mask ps w w' =
    SameRest w w'
    × ((q : Part) → w'.engines q ≡ (w.engines q && not (member q ps && has_event mask q)))

and_true : (x : Bool) → x ≡ (x && true)
and_true true = refl
and_true false = refl

turned_off :
    (mask : ℕ) (p q : Part) (ps : List Part) (w : World)
    → has_event mask p ≡ true
    → ((set_engine p false w).engines q && not (member q ps && has_event mask q))
      ≡ (w.engines q && not (member q (p ∷ ps) && has_event mask q))
unfolding set_engine
turned_off mask p q ps w asked = elim (Bool-cases (same_part p q)) [
  | inl same ↦
      let asked' : has_event mask q ≡ true =
        subst (λ x. has_event mask x ≡ true) (same_part_eq p q same) asked in
      rw (same, asked') (sym (and_false (w.engines q)))
  | inr other ↦ rw other refl
]

left_alone :
    (mask : ℕ) (p q : Part) (ps : List Part)
    → has_event mask p ≡ false
    → (member q ps && has_event mask q) ≡ (member q (p ∷ ps) && has_event mask q)
left_alone mask p q ps unasked = elim (Bool-cases (same_part p q)) [
  | inl same ↦
      let unasked' : has_event mask q ≡ false =
        subst (λ x. has_event mask x ≡ false) (same_part_eq p q same) unasked in
      rw (same, unasked') (and_false (member q ps))
  | inr other ↦ rw other refl
]

pub stop_engines_lem :
    (mask : ℕ) (ps : List Part) (w : World) → Stopped mask ps w (stop_engines mask ps w)
unfolding stop_engines set_engine
stop_engines_lem mask [] w = (refl, λ q. and_true (w.engines q))
stop_engines_lem mask (p ∷ ps) w =
    if_cases (λ (v : World). Stopped mask (p ∷ ps) w (stop_engines mask ps v)) (has_event mask p) _
      _
      (λ asked.
        let (rest, others) = stop_engines_lem mask ps (set_engine p false w) in
        (rest, λ q. others q ∙ turned_off mask p q ps w asked))
      (λ unasked.
        let (rest, others) = stop_engines_lem mask ps w in
        (
          rest,
          λ q. others q ∙ ap (λ (b : Bool). w.engines q && not b) (left_alone mask p q ps unasked),
        ))

-- The labels stop what was started before the engine that failed.
pub fall_through_lem :
    (mask : ℕ) (p : Part) (w : World)
    → fall_through mask (label_of p) w ≡ stop_engines mask (before_part p) w
unfolding fall_through label_of stop_if_asked stop_engines has_event
fall_through_lem mask main w = refl
fall_through_lem mask alloc w = refl
fall_through_lem mask lock w = refl
fall_through_lem mask wall w = refl
fall_through_lem mask nativemem w = refl
fall_through_lem mask nativelock w = refl
fall_through_lem mask trace w = refl
