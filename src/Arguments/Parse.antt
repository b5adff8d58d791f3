-- ===== src/Arguments/Parse.antt =====
-- `Arguments::parse` of src/arguments.cpp: the loop over the comma-separated arguments, and what it
-- completes when all of them are read.
use Prim.Native.String.{String}
use async_profiler.Base.{
  Bool, true, false, not, ◌&&◌, List, [], ◌∷◌, Option, none, some, if◌then◌else◌, ◌==◌,
}
use async_profiler.Base.Int.{pos}
use async_profiler.Base.Texts.{Text, before_char, after_char}
use async_profiler.Arguments.{
  Arguments, Action, no_action, start, resume, stop, dump, status, metrics, list, version, Output,
  no_output, text, collapsed, flamegraph, tree, jfr, otlp, event_cpu,
}
use async_profiler.Arguments.Names.{OptionArg, option_of}
use async_profiler.Arguments.Values.{detect_output_format}
use async_profiler.Arguments.Handlers.{on_option}
use async_profiler.Arguments.Handlers.Formats.{Handled, is_negative}
use async_profiler.Arguments.Handlers.Engines.{is_null}

-- The text before the first comma, and the texts behind each comma.
unfoldable pub pieces : Text → Text × List Text
pieces [] = ([], [])
pieces (c ∷ cs) =
    let (first, rest) = pieces cs in if c == b',' then ([], first ∷ rest) else (c ∷ first, rest)

unfoldable pub without_empty : List Text → List Text
without_empty [] = []
without_empty ([] ∷ rest) = without_empty rest
without_empty ((c ∷ cs) ∷ rest) = (c ∷ cs) ∷ without_empty rest

-- What `strtok` with a comma yields: it never yields an empty token.
unfoldable pub tokens : Text → List Text
unfolding pieces without_empty
tokens args = let (first, rest) = pieces args in without_empty (first ∷ rest)

-- DEFAULT: the first unknown argument is kept.
unfoldable pub on_unknown : Text → Arguments → Arguments
on_unknown name a = if is_null a.unknown_arg then record a { unknown_arg = some name } else a

-- The body of the case that was found, or of DEFAULT.
unfoldable pub on_case : Bool → Option OptionArg → Text → Option Text → Arguments → Handled
unfolding on_unknown on_option
on_case is_linux none name value a = (on_unknown name a, none)
on_case is_linux (some o) name value a = on_option is_linux o value a

-- The SWITCH on the name of an argument.
unfoldable pub on_name : Bool → Text → Option Text → Arguments → Handled
unfolding option_of on_case
on_name is_linux name value a = on_case is_linux (option_of name) name value a

-- One round of the loop; a token is split at its first `=`.
unfoldable pub on_token : Bool → Text → Arguments → Handled
unfolding on_name
on_token is_linux token a = on_name is_linux (before_char b'=' token) (after_char b'=' token) a

-- `if (condition) msg = message`
unfoldable pub later_message : Option String → Option String → Option String
later_message msg none = msg
later_message msg (some message) = some message

-- The loop: an error does not end it, and the last one is reported.
unfoldable pub on_tokens : Bool → List Text → Handled → Handled
unfolding on_token later_message
on_tokens is_linux [] state = state
on_tokens is_linux (token ∷ rest) (a, msg) =
    let (b, message) = on_token is_linux token a in
    on_tokens is_linux rest (b, later_message msg message)

abbrev pub is_nil : List (Option Text) → Bool
is_nil [] = true
is_nil (x ∷ xs) = false

abbrev pub is_no_output : Output → Bool
is_no_output no_output = true
is_no_output text = false
is_no_output collapsed = false
is_no_output flamegraph = false
is_no_output tree = false
is_no_output jfr = false
is_no_output otlp = false

abbrev pub is_no_action : Action → Bool
is_no_action no_action = true
is_no_action start = false
is_no_action resume = false
is_no_action stop = false
is_no_action dump = false
is_no_action status = false
is_no_action metrics = false
is_no_action list = false
is_no_action version = false

-- The CPU engine is enabled when no other is.
unfoldable pub with_engine : Arguments → Arguments
with_engine a =
    if is_null a.event
      && (is_negative a.alloc
          && (is_negative a.lock
              && (is_negative a.wall
                  && (is_negative a.nativemem && (is_negative a.nativelock && is_nil a.trace)))))
    then record a { event = some event_cpu }
    else a

-- A file without an output format gets one by its name.
unfoldable pub with_output_for : Option Text → Arguments → Arguments
with_output_for none a = a
with_output_for (some file) a =
    if is_no_output a.output
    then record a { output = detect_output_format file; dump_traces = pos 100; dump_flat = pos 200 }
    else a

unfoldable pub with_output : Arguments → Arguments
unfolding with_output_for
with_output a = with_output_for a.file a

-- An output without an action is dumped.
unfoldable pub with_action : Arguments → Arguments
with_action a =
    if is_no_action a.action && not (is_no_output a.output) then record a { action = dump } else a

unfoldable pub complete : Arguments → Arguments
unfolding with_engine with_output with_action
complete a = with_action (with_output (with_engine a))

-- What follows the loop; `none` stands for Error::OK.
unfoldable pub after_loop : Handled → Handled
unfolding complete
after_loop (a, some message) = (a, some message)
after_loop (a, none) = (complete a, none)

-- `has_memory` is the success of malloc, `is_linux` what OS::isLinux() returns.
unfoldable pub parse : Bool → Bool → Option Text → Arguments → Handled
unfolding tokens on_tokens after_loop
parse is_linux has_memory none a = (a, none)
parse is_linux has_memory (some args) a =
    if has_memory
    then after_loop (on_tokens is_linux (tokens args) (a, none))
    else (a, some "Not enough memory to parse arguments")
