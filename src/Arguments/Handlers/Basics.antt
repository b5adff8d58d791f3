-- ===== src/Arguments/Handlers/Basics.antt =====
-- What the cases of `parse` (src/arguments.cpp) do with an option and its value.
-- Each yields the options and the message that it leaves, if any.
use Prim.Native.String.{String}
use async_profiler.Base.{
  ℕ, ◌-◌, ◌*◌, ◌%◌, ◌^◌, Bool, true, false, ◌&&◌, ◌||◌, [], ◌∷◌, Option, none, some, if◌then◌else◌,
  leb, ltb, ◌==◌, bit_or,
}
use async_profiler.Base.Int.{ℤ, pos, negsuc, ltb_ℤ}
use async_profiler.Base.Texts.{
  Text, codes, text_eq, after_char, contains_text, strtol, strtoull, atoi, bits32, int32,
}
use async_profiler.Arguments.{Arguments, StackWalkFeatures, queued, coalescing}
use async_profiler.Arguments.Names.{
  BasicArg, jstackdepth_arg, signal_arg, signalcookie_arg, cookiesignal_arg, signalid_arg,
  signalepoch_arg, features_arg, file_arg, log_arg, loglevel_arg, quiet_arg, fdtransfer_arg,
}
use async_profiler.Arguments.Handlers.Formats.{Handled, done, fails}

abbrev pub is_positive : ℤ → Bool
is_positive n = ltb_ℤ (pos 0) n

abbrev pub atoi_or : ℤ → Option Text → ℤ
atoi_or other none = other
atoi_or other (some s) = atoi s

unfoldable pub on_jstackdepth : Option Text → Arguments → Handled
on_jstackdepth none a = fails a "jstackdepth must be > 0"
on_jstackdepth (some value) a =
    let n = atoi value in
    let b = record a { jstackdepth = n } in
    if is_positive n
    then done (record b { truncated_stack_depth = atoi_or n (after_char b'/' value) })
    else fails b "jstackdepth must be > 0"

-- `signal | atoi(second) << 8`
unfoldable pub with_second : ℤ → Option Text → ℤ
with_second first none = first
with_second first (some second) =
    int32 (bit_or (bits32 first) (bits32 (atoi second) * 2 ^ 8 % 2 ^ 32))

unfoldable pub on_signal : Option Text → Arguments → Handled
unfolding with_second
on_signal none a = fails a "signal must be > 0"
on_signal (some value) a =
    let n = atoi value in
    if is_positive n
    then done (record a { signal = with_second n (after_char b'/' value) })
    else fails (record a { signal = n }) "signal must be > 0"

unfoldable pub on_signalcookie : Option Text → Arguments → Handled
on_signalcookie none a = done (record a { signal_cookie = true; signal_cookie_delivery = queued })
on_signalcookie (some value) a =
    let b = record a { signal_cookie = true } in
    if text_eq value (codes "queued")
    then done (record b { signal_cookie_delivery = queued })
    else if text_eq value (codes "coalescing")
    then done (record b { signal_cookie_delivery = coalescing })
    else fails b "signalcookie must be queued or coalescing"

-- A whole text that is a number in a range.
abbrev pub whole_between : ℕ → ℕ → Option (ℤ × Text) → Option ℕ
whole_between low high (some (pos n, [])) = if leb low n && leb n high then some n else none
whole_between low high (some (negsuc n, rest)) = none
whole_between low high (some (pos n, c ∷ cs)) = none
whole_between low high none = none

unfoldable pub on_cookiesignal_value : Text → Arguments → Handled
on_cookiesignal_value value a =
    if text_eq value (codes "auto")
    then done (record a { cookie_signal = pos 0 })
    else (elim (whole_between 1 255 (strtol 10 value)) [
      | none ↦ fails a "cookiesignal must be a positive signal number"
      | some n ↦ done (record a { cookie_signal = pos n })
    ])

unfoldable pub on_cookiesignal : Option Text → Arguments → Handled
unfolding on_cookiesignal_value
on_cookiesignal none a = fails a "cookiesignal must not be empty"
on_cookiesignal (some []) a = fails a "cookiesignal must not be empty"
on_cookiesignal (some (c ∷ cs)) a = on_cookiesignal_value (c ∷ cs) a

abbrev pub whole_epoch : Option (ℕ × Text) → Option ℕ
whole_epoch (some (n, [])) = if (n == 0) || ltb (2 ^ 32 - 1) n then none else some n
whole_epoch (some (n, c ∷ cs)) = none
whole_epoch none = none

unfoldable pub on_signalepoch : Option Text → Arguments → Handled
on_signalepoch none a = fails a "signalepoch must not be empty"
on_signalepoch (some []) a = fails a "signalepoch must not be empty"
on_signalepoch (some (c ∷ cs)) a = elim (whole_epoch (strtoull (c ∷ cs))) [
  | none ↦ fails a "signalepoch must be an unsigned 32-bit value"
  | some n ↦ done (record a { signal_epoch = n })
]

-- Features are found by `strstr`, and are only ever switched on.
unfoldable pub with_features : Text → StackWalkFeatures → StackWalkFeatures
with_features value f = record {
  stats = contains_text (codes "stats") value || f.stats;
  jnienv = contains_text (codes "jnienv") value || f.jnienv;
  agct = contains_text (codes "agct") value || f.agct;
  mixed = contains_text (codes "mixed") value || f.mixed;
  vtable_target = contains_text (codes "vtable") value || f.vtable_target;
  comp_task = contains_text (codes "comptask") value || f.comp_task;
  pc_addr = contains_text (codes "pcaddr") value || f.pc_addr;
}

unfoldable pub on_features : Option Text → Arguments → Handled
unfolding with_features
on_features none a = done a
on_features (some value) a = done (record a { features = with_features value a.features })

-- `value == NULL || value[0] == 0`
abbrev pub is_empty : Option Text → Bool
is_empty none = true
is_empty (some []) = true
is_empty (some (c ∷ cs)) = false

-- The options are changed all the same when the value is empty.
abbrev pub unless_empty : Option Text → Arguments → String → Handled
unless_empty value a message = if is_empty value then fails a message else done a

unfoldable pub on_basic : BasicArg → Option Text → Arguments → Handled
unfolding on_jstackdepth on_signal on_signalcookie on_cookiesignal on_signalepoch on_features
on_basic jstackdepth_arg value a = on_jstackdepth value a
on_basic signal_arg value a = on_signal value a
on_basic signalcookie_arg value a = on_signalcookie value a
on_basic cookiesignal_arg value a = on_cookiesignal value a
on_basic signalid_arg value a =
    unless_empty value (record a { signal_id = value }) "signalid must not be empty"
on_basic signalepoch_arg value a = on_signalepoch value a
on_basic features_arg value a = on_features value a
on_basic file_arg value a = unless_empty value (record a { file = value }) "file must not be empty"
on_basic log_arg value a = done (record a { log = if is_empty value then none else value })
on_basic loglevel_arg value a =
    unless_empty value (record a { loglevel = value }) "loglevel must not be empty"
on_basic quiet_arg value a = done (record a { quiet = true })
on_basic fdtransfer_arg value a =
    unless_empty value (record a { fdtransfer = true; fdtransfer_path = value })
      "fdtransfer path must not be empty"
