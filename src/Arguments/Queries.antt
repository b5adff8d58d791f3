-- ===== src/Arguments/Queries.antt =====
-- The questions that src/arguments.h and src/arguments.cpp answer about the options.
use async_profiler.Base.{
  ℕ, Bool, true, false, not, ◌&&◌, Option, none, some, if◌then◌else◌, ◌==◌, bit_and, bit_or,
}
use async_profiler.Base.Texts.{Text, codes, text_eq, starts_with}
use async_profiler.Arguments.{
  Arguments, Action, no_action, start, resume, stop, dump, status, metrics, list, version, Output,
  no_output, text, collapsed, flamegraph, tree, jfr, otlp, event_signal,
}
use async_profiler.Arguments.Handlers.Formats.{is_negative}
use async_profiler.Arguments.Parse.{is_nil}

unfoldable pub has_temporary_log : Arguments → Bool
has_temporary_log a = elim a.log [
  | none ↦ false
  | some log ↦ starts_with (codes "/tmp/asprof-log.") log
]

abbrev pub is_jfr : Output → Bool
is_jfr no_output = false
is_jfr text = false
is_jfr collapsed = false
is_jfr flamegraph = false
is_jfr tree = false
is_jfr jfr = true
is_jfr otlp = false

-- Whether the action writes a file other than a recording.
unfoldable pub writes_output : Action → Output → Bool
writes_output no_action o = false
writes_output start o = false
writes_output resume o = false
writes_output stop o = not (is_jfr o)
writes_output dump o = not (is_jfr o)
writes_output status o = true
writes_output metrics o = true
writes_output list o = true
writes_output version o = true

unfoldable pub has_output_file : Arguments → Bool
unfolding writes_output
has_output_file a = elim a.file [ none ↦ false | some file ↦ writes_output a.action a.output ]

unfoldable pub has_option : ℕ → Arguments → Bool
has_option option a = not (bit_and a.jfr_options option == 0)

-- `_event != NULL && !cookie_only`
unfoldable pub samples_event : Bool → Option Text → Bool
samples_event cookie none = false
samples_event cookie (some event) = not (cookie && text_eq event event_signal)

abbrev pub flag : Bool → ℕ → ℕ
flag b n = if b then n else 0

-- The bits 1 << EC_..., by the order of enum EventCategory.
unfoldable pub event_mask : Arguments → ℕ
unfolding samples_event
event_mask a = bit_or (flag (samples_event a.signal_cookie a.event) 1) (
    bit_or (flag (not (is_negative a.alloc)) 2) (
      bit_or (flag (not (is_negative a.lock)) 4) (
        bit_or (flag (not (is_negative a.wall)) 8) (
          bit_or (flag (not (is_negative a.nativemem)) 16)
            (bit_or (flag (not (is_negative a.nativelock)) 32) (flag (not (is_nil a.trace)) 64))))))
