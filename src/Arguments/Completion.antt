-- ===== src/Arguments/Completion.antt =====
-- What `Arguments::parse` (src/arguments.cpp) leaves in the options when it succeeds, as `eventMask`
-- (src/arguments.h) and the actions of the profiler rely on it.
use async_profiler.Base.{
  ℕ, suc, ◌≡◌, ◌≢◌, ◌⊎◌, ◌∙◌, refl, ap, sym, subst, arith, Bool, true, false, not, ◌&&◌, ◌||◌,
  Option, none, some, Bool-cases, inl, inr, bit_or, if_cases, if_both, ◌==◌,
}
use mathlib.Core.Option.{some-ne-none}
use mathlib.Core.Bool.{true≢false}
use async_profiler.Base.Int.{ℤ, pos}
use async_profiler.Base.Bits.{bit_or_clear, bit_or_comm}
use async_profiler.Base.Texts.{Text, codes, after_last_char, text_eq}
use async_profiler.Arguments.{Arguments, Output, Action, event_cpu, dump, text}
use async_profiler.Arguments.Handlers.Formats.{Handled, is_negative}
use async_profiler.Arguments.Handlers.Engines.{is_null}
use async_profiler.Arguments.Values.{detect_output_format, is_url, format_of_extension}
use async_profiler.Arguments.Queries.{event_mask, samples_event, flag}
use async_profiler.Arguments.Parse.{
  tokens, on_tokens, after_loop, complete, parse, with_engine, with_output, with_output_for,
  with_action, is_nil, is_no_output, is_no_action,
}

-- Only signal cookies are asked for: the one use in which no event is sampled.
abbrev pub is_cookie_only : Arguments → Bool
is_cookie_only a = a.signal_cookie && not (samples_event true a.event)

abbrev pub Completed : Arguments → Type 0
Completed a =
    ((event_mask a ≢ 0) ⊎ (is_cookie_only a ≡ true))
    × ((is_null a.file ≡ false → is_no_output a.output ≡ false)
        × (is_no_output a.output ≡ false → is_no_action a.action ≡ false))

abbrev IsSomeOutput : Output → Type 0
IsSomeOutput o = is_no_output o ≡ false

extension_format : (ext : Text) → IsSomeOutput (format_of_extension ext)
unfolding format_of_extension
extension_format ext = if_both IsSomeOutput (text_eq ext (codes "html")) _ _ refl (
    if_both IsSomeOutput (text_eq ext (codes "jfr")) _ _ refl (
      if_both IsSomeOutput (text_eq ext (codes "collapsed") || text_eq ext (codes "folded")) _ _
        refl refl))

-- A file name always has an output format.
detected : (file : Text) → IsSomeOutput (detect_output_format file)
unfolding detect_output_format
detected file =
    if_both IsSomeOutput (is_url file) _ _ refl
      (elim (after_last_char b'.' file)
        as (λ found.
          IsSomeOutput
            (elim found as (λ _. Output) [ none ↦ text | some ext ↦ format_of_extension ext ])) [
              | none ↦ refl
              | some ext ↦ extension_format ext
            ])

with_output_for-Completed :
    (file : Option Text) (a : Arguments)
    → is_null file ≡ false
    → IsSomeOutput (with_output_for file a).output
unfolding with_output_for
with_output_for-Completed none a h = absurd (ground arith)
with_output_for-Completed (some file) a h =
    if_cases (λ (b : Arguments). IsSomeOutput b.output) (is_no_output a.output) _ _
      (λ e. detected file) (λ e. e)

with_output_for-file : (file : Option Text) (a : Arguments) → (with_output_for file a).file ≡ a.file
unfolding with_output_for
with_output_for-file none a = refl
with_output_for-file (some file) a =
    if_both (λ (b : Arguments). b.file ≡ a.file) (is_no_output a.output) _ _ refl refl

with_action-Completed :
    (a : Arguments)
    → is_no_output (with_action a).output ≡ false
    → is_no_action (with_action a).action ≡ false
unfolding with_action
with_action-Completed a h = ground arith

-- A flag that leaves the disjunction 0 is off.
flag_off : (b : Bool) (n x : ℕ) → bit_or (flag b (suc n)) x ≡ 0 → (b ≡ false) × (x ≡ 0)
flag_off true n x e = absurd (omega (arith, bit_or_clear (suc n) x e))
flag_off false n x e = (refl, bit_or_clear x 0 (bit_or_comm x 0 ∙ e))

-- No event is sampled only for the signal event with cookies.
unsampled :
    (cookie : Bool) (event : Option Text)
    → is_null event ≡ false
    → samples_event cookie event ≡ false
    → cookie && not (samples_event true event) ≡ true
unfolding samples_event
unsampled cookie none h e = ground arith
unsampled cookie (some event) h e = ground arith

mask_clear :
    (a : Arguments)
    → event_mask a ≡ 0
    → (samples_event a.signal_cookie a.event ≡ false)
      × ((is_negative a.alloc
            && (is_negative a.lock
                && (is_negative a.wall
                    && (is_negative a.nativemem && (is_negative a.nativelock && is_nil a.trace)))))
          ≡ true)
unfolding event_mask
mask_clear a e =
    let (event_off, e1) = flag_off _ 0 _ e in
    let (alloc_off, e2) = flag_off _ 1 _ e1 in
    let (lock_off, e3) = flag_off _ 3 _ e2 in
    let (wall_off, e4) = flag_off _ 7 _ e3 in
    let (nativemem_off, e5) = flag_off _ 15 _ e4 in
    let (nativelock_off, e6) = flag_off _ 31 _ e5 in (event_off, ground arith)

-- An engine is enabled, or only signal cookies are asked for.
abbrev Enabled : Arguments → Type 0
Enabled a = (event_mask a ≢ 0) ⊎ (is_cookie_only a ≡ true)

-- Without another engine, the CPU engine is set: an event that is sampled in any case.
samples_cpu : (cookie : Bool) → samples_event cookie (some event_cpu) ≡ true
unfolding samples_event text_eq
samples_cpu true = refl
samples_cpu false = refl

cpu-Enabled : (a : Arguments) → Enabled (record a { event = some event_cpu })
cpu-Enabled a =
    let b : Arguments = record a { event = some event_cpu } in
    inl (λ clear. true≢false (sym (samples_cpu a.signal_cookie) ∙ (mask_clear b clear).0))

left_off : (x y : Bool) → (x && y) ≡ false → y ≡ true → x ≡ false
left_off true y h e = sym e ∙ h
left_off false y h e = refl

abbrev others_off : Arguments → Bool
others_off a =
    is_negative a.alloc
    && (is_negative a.lock
        && (is_negative a.wall
            && (is_negative a.nativemem && (is_negative a.nativelock && is_nil a.trace))))

-- With another engine, only the signal event with cookies leaves nothing to sample.
other-Enabled : (a : Arguments) → (is_null a.event && others_off a) ≡ false → Enabled a
other-Enabled a h = elim (Bool-cases (event_mask a == 0)) [
  | inl e ↦
      let clear = mask_clear a (ground arith) in
      inr (
        unsampled a.signal_cookie a.event (left_off (is_null a.event) (others_off a) h clear.1)
          clear.0)
  | inr e ↦ inl (λ clear. absurd (ground arith))
]

set_engine : (a : Arguments) → Enabled (with_engine a)
unfolding with_engine
set_engine a =
    if_cases Enabled (is_null a.event && others_off a) _ _ (λ e. cpu-Enabled a) (other-Enabled a)

-- The mask does not depend on the output and the action.
output-Enabled :
    (a : Arguments) (o : Output) (traces flat : ℤ)
    → Enabled a
    → Enabled (record a { output = o; dump_traces = traces; dump_flat = flat })
unfolding event_mask
output-Enabled a o traces flat h = h

action-Enabled : (a : Arguments) (x : Action) → Enabled a → Enabled (record a { action = x })
unfolding event_mask
action-Enabled a x h = h

with_output_for-Enabled :
    (file : Option Text) (a : Arguments) → Enabled a → Enabled (with_output_for file a)
unfolding with_output_for
with_output_for-Enabled none a h = h
with_output_for-Enabled (some file) a h =
    if_both Enabled (is_no_output a.output) _ _
      (output-Enabled a (detect_output_format file) (pos 100) (pos 200) h) h

with_action-Enabled : (a : Arguments) → Enabled a → Enabled (with_action a)
unfolding with_action
with_action-Enabled a h = if_both Enabled _ _ _ (action-Enabled a dump h) h

-- The action changes neither the file nor the output.
with_action_same :
    (a : Arguments) → ((with_action a).file ≡ a.file) × ((with_action a).output ≡ a.output)
unfolding with_action
with_action_same a =
    if_both (λ (b : Arguments). (b.file ≡ a.file) × (b.output ≡ a.output)) _ _ _ (refl, refl)
      (refl, refl)

complete-Completed : (a : Arguments) → Completed (complete a)
unfolding complete with_output
complete-Completed a =
    let b : Arguments = with_engine a in
    let c : Arguments = with_output_for b.file b in
    let (same_file, same_output) = with_action_same c in
    (
      with_action-Enabled c (with_output_for-Enabled b.file b (set_engine a)),
      (
        λ h.
            ap is_no_output same_output
            ∙ with_output_for-Completed b.file b
                (sym (ap is_null (same_file ∙ with_output_for-file b.file b)) ∙ h),
        with_action-Completed c,
      ),
    )

after_loop-Completed :
    (state : Handled) (b : Arguments) → after_loop state ≡ (b, none) → Completed b
unfolding after_loop
after_loop-Completed (a, none) b e =
    subst Completed (ap (λ (r : Handled). r.0) e) (complete-Completed a)
after_loop-Completed (a, some m) b e = absurd (some-ne-none m (ap (λ (r : Handled). r.1) e))

-- What a parse without an error leaves: NULL leaves the options as they were.
abbrev pub Parsed : Option Text → Arguments → Arguments → Type 0
Parsed none a b = b ≡ a
Parsed (some args) a b = Completed b

-- A parse of a text that returns no error leaves an engine enabled, unless only signal cookies are
-- asked for; an output format for every file; and an action for every output. A parse of NULL that
-- returns no error leaves the options as they were.
pub parse-Completed :
    (is_linux has_memory : Bool) (args : Option Text) (a b : Arguments)
    → parse is_linux has_memory args a ≡ (b, none)
    → Parsed args a b
unfolding parse
parse-Completed is_linux has_memory none a b e = sym (ap (λ (r : Handled). r.0) e)
parse-Completed is_linux true (some args) a b e =
    after_loop-Completed (on_tokens is_linux (tokens args) (a, none)) b e
parse-Completed is_linux false (some args) a b e =
    absurd (some-ne-none _ (ap (λ (r : Handled). r.1) e))
