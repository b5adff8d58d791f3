-- ===== src/Arguments/Handlers/Filters.antt =====
-- What the cases of `parse` (src/arguments.cpp) do with an option and its value.
-- Each yields the options and the message that it leaves, if any.
use async_profiler.Base.{
  ℕ, ◌%◌, true, not, ◌||◌, [], ◌∷◌, ◌++◌, Option, none, some, if◌then◌else◌, ◌==◌, bit_or,
}
use async_profiler.Base.Int.{negsuc}
use async_profiler.Base.Texts.{Text, codes, text_eq, strtol, atoi, bits32, value_or_zero}
use async_profiler.Arguments.{Arguments, no_stack, fp, dwarf, vm, tsc, monotonic}
use async_profiler.Arguments.Names.{
  FilterArg, filter_arg, include_arg, exclude_arg, threads_arg, sched_arg, record_cpu_arg, live_arg,
  nobatch_arg, alluser_arg, cstack_arg, clock_arg, target_cpu_arg, StyleArg, simple_arg, dot_arg,
  norm_arg, sig_arg, ann_arg, lib_arg, mcache_arg, begin_arg, end_arg, nostop_arg, ttsp_arg,
  GraphArg, title_arg, minwidth_arg, reverse_arg, inverted_arg,
}
use async_profiler.Arguments.Handlers.Formats.{Handled, done, fails, text_or, is_negative, first_is}
use async_profiler.Arguments.Handlers.Engines.{is_null}

unfoldable pub on_cstack : Option Text → Arguments → Arguments
on_cstack none a = a
on_cstack (some value) a =
    if text_eq value (codes "fp")
    then record a { cstack = fp }
    else if text_eq value (codes "dwarf")
    then record a { cstack = dwarf }
    else if text_eq value (codes "vm")
    then record a { cstack = vm }
    else if text_eq value (codes "vmx")
    then record a { cstack = vm; features = record (a.features) { mixed = true } }
    else record a { cstack = no_stack }

unfoldable pub on_clock : Option Text → Arguments → Arguments
on_clock none a = a
on_clock (some value) a =
    if first_is (λ c. c == b't') value
    then record a { clock = tsc }
    else if first_is (λ c. c == b'm') value
    then record a { clock = monotonic }
    else a

unfoldable pub on_target_cpu : Option Text → Arguments → Arguments
on_target_cpu none a = record a { target_cpu = negsuc 0 }
on_target_cpu (some value) a =
    let n = atoi value in record a { target_cpu = if is_negative n then negsuc 0 else n }

unfoldable pub on_filter : FilterArg → Option Text → Arguments → Handled
unfolding on_cstack on_clock on_target_cpu
on_filter filter_arg value a = done (record a { filter = some (text_or [] value) })
on_filter include_arg value a = done (record a { include = a.include ++ (value ∷ []) })
on_filter exclude_arg value a = done (record a { exclude = a.exclude ++ (value ∷ []) })
on_filter threads_arg value a = done (record a { threads = true })
on_filter sched_arg value a = done (record a { sched = true })
on_filter record_cpu_arg value a = done (record a { record_cpu = true })
on_filter live_arg value a = done (record a { live = true })
on_filter nobatch_arg value a = done (record a { nobatch = true })
on_filter alluser_arg value a = done (record a { alluser = true })
on_filter cstack_arg value a = done (on_cstack value a)
on_filter clock_arg value a = done (on_clock value a)
on_filter target_cpu_arg value a = done (on_target_cpu value a)

-- The bits of enum Style.
abbrev pub with_style : Arguments → ℕ → Arguments
with_style a bit = record a { style = bit_or a.style bit }

-- `value == NULL ? 1 : (unsigned char)strtol(value, NULL, 0)`
unfoldable pub mcache_of : Option Text → ℕ
mcache_of none = 1
mcache_of (some value) = bits32 (value_or_zero (strtol 0 value)) % 256

unfoldable pub on_ttsp : Arguments → Handled
on_ttsp a =
    let b = record a {
      begin = some (codes "SafepointSynchronize::begin");
      end = some (codes "RuntimeService::record_safepoint_synchronized");
    } in
    if not (is_null a.begin) || not (is_null a.end)
    then fails b "begin and end must both be empty when ttsp is set"
    else done b

unfoldable pub on_style : StyleArg → Option Text → Arguments → Handled
unfolding mcache_of on_ttsp
on_style simple_arg value a = done (with_style a 0x1)
on_style dot_arg value a = done (with_style a 0x2)
on_style norm_arg value a = done (with_style a 0x4)
on_style sig_arg value a = done (with_style a 0x8)
on_style ann_arg value a = done (with_style a 0x10)
on_style lib_arg value a = done (with_style a 0x20)
on_style mcache_arg value a = done (record a { mcache = mcache_of value })
on_style begin_arg value a = done (record a { begin = value })
on_style end_arg value a = done (record a { end = value })
on_style nostop_arg value a = done (record a { nostop = true })
on_style ttsp_arg value a = on_ttsp a

unfoldable pub on_graph : GraphArg → Option Text → Arguments → Handled
on_graph title_arg value a = done (record a { title = value })
on_graph minwidth_arg value a = done (if is_null value then a else record a { minwidth = value })
on_graph reverse_arg value a = done (record a { reverse = true })
on_graph inverted_arg value a = done (record a { inverted = true })
