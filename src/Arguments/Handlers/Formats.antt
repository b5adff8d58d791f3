-- ===== src/Arguments/Handlers/Formats.antt =====
-- What the cases of `parse` (src/arguments.cpp) do with an option and its value.
-- Each yields the options and the message that it leaves, if any.
use Prim.Native.String.{String}
use async_profiler.Base.{ℕ, Bool, false, [], ◌∷◌, Option, none, some, if◌then◌else◌, bit_or}
use async_profiler.Base.Int.{ℤ, pos, ltb_ℤ}
use async_profiler.Base.Texts.{
  Text, codes, contains_text, is_digit, strtol, atoi, bits32, value_or_zero,
}
use async_profiler.Arguments.{
  Arguments, start, resume, stop, dump, status, metrics, list, version, samples, total, text,
  collapsed, flamegraph, tree, jfr, otlp, in_memory, jfr_sync_opts,
}
use async_profiler.Arguments.Names.{
  ActionArg, start_arg, resume_arg, stop_arg, dump_arg, status_arg, metrics_arg, list_arg,
  version_arg, FormatArg, collapsed_arg, flamegraph_arg, tree_arg, jfr_arg, jfropts_arg,
  jfrsync_arg, traces_arg, flat_arg, otlp_arg, samples_arg, total_arg, ratelimit_arg, chunksize_arg,
  chunktime_arg,
}
use async_profiler.Arguments.Values.{parse_units, bytes, seconds}
use async_profiler.Arguments.RateLimits.{parse_rate_limit, int_max}

abbrev pub Handled : Type 0
Handled = Arguments × Option String

abbrev pub done : Arguments → Handled
done a = (a, none)

abbrev pub fails : Arguments → String → Handled
fails a message = (a, some message)

unfoldable pub on_action : ActionArg → Arguments → Handled
on_action start_arg a = done (record a { action = start })
on_action resume_arg a = done (record a { action = resume })
on_action stop_arg a = done (record a { action = stop })
on_action dump_arg a = done (record a { action = dump })
on_action status_arg a = done (record a { action = status })
on_action metrics_arg a = done (record a { action = metrics })
on_action list_arg a = done (record a { action = list })
on_action version_arg a = done (record a { action = version })

-- A value that is not NULL, at its first character.
abbrev pub first_is : (ℕ → Bool) → Text → Bool
first_is p [] = false
first_is p (c ∷ cs) = p c

unfoldable pub on_jfropts : Option Text → Arguments → Handled
on_jfropts none a = fails (record a { output = jfr }) "Invalid jfropts"
on_jfropts (some value) a =
    let b = record a { output = jfr } in
    if first_is is_digit value
    then done (record b { jfr_options = bits32 (value_or_zero (strtol 0 value)) })
    else if contains_text (codes "mem") value
    then done (record b { jfr_options = bit_or a.jfr_options in_memory })
    else done b

-- `value == NULL ? INT_MAX : atoi(value)`
abbrev pub count_or_max : Option Text → ℤ
count_or_max none = pos int_max
count_or_max (some value) = atoi value

unfoldable pub on_ratelimit : Option Text → Arguments → Handled
on_ratelimit none a = fails a "Invalid ratelimit"
on_ratelimit (some value) a =
    let (rates, ok) = parse_rate_limit a.rate_limit value in
    let b = record a { rate_limit = rates } in if ok then done b else fails b "Invalid ratelimit"

abbrev pub is_negative : ℤ → Bool
is_negative n = ltb_ℤ n (pos 0)

unfoldable pub on_chunksize : Option Text → Arguments → Handled
on_chunksize none a = fails a "Invalid chunksize"
on_chunksize (some value) a =
    let n = parse_units value bytes in
    let b = record a { chunk_size = n } in
    if is_negative n then fails b "Invalid chunksize" else done b

unfoldable pub on_chunktime : Option Text → Arguments → Handled
on_chunktime none a = fails a "Invalid chunktime"
on_chunktime (some value) a =
    let n = parse_units value seconds in
    let b = record a { chunk_time = n } in
    if is_negative n then fails b "Invalid chunktime" else done b

abbrev pub text_or : Text → Option Text → Text
text_or other none = other
text_or other (some value) = value

unfoldable pub on_format : FormatArg → Option Text → Arguments → Handled
unfolding on_jfropts on_ratelimit on_chunksize on_chunktime
on_format collapsed_arg value a = done (record a { output = collapsed })
on_format flamegraph_arg value a = done (record a { output = flamegraph })
on_format tree_arg value a = done (record a { output = tree })
on_format jfr_arg value a = done (record a { output = jfr })
on_format jfropts_arg value a = on_jfropts value a
on_format jfrsync_arg value a = done (record a {
  output = jfr;
  jfr_options = bit_or a.jfr_options jfr_sync_opts;
  jfr_sync = some (text_or (codes "default") value);
})
on_format traces_arg value a = done (record a { output = text; dump_traces = count_or_max value })
on_format flat_arg value a = done (record a { output = text; dump_flat = count_or_max value })
on_format otlp_arg value a = done (record a { output = otlp })
on_format samples_arg value a = done (record a { counter = samples })
on_format total_arg value a = done (record a { counter = total })
on_format ratelimit_arg value a = on_ratelimit value a
on_format chunksize_arg value a = on_chunksize value a
on_format chunktime_arg value a = on_chunktime value a
