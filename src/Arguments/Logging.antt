-- ===== src/Arguments/Logging.antt =====
-- What each case of `parse` (src/arguments.cpp) does to the log file of the options.
use async_profiler.Base.{◌≡◌, ◌≢◌, refl, ap, arith, Bool, [], ◌∷◌, Option, none, some, if_both}
use async_profiler.Base.Int.{pos}
use async_profiler.Base.Texts.{Text, codes, text_eq, strtol, strtoull}
use async_profiler.Arguments.{Arguments}
use async_profiler.Arguments.Names.{
  OptionArg, an_action, a_format, an_engine, a_basic, a_filter, a_style, a_graph, ActionArg,
  FormatArg, EngineArg, BasicArg, FilterArg, StyleArg, GraphArg, start_arg, resume_arg, stop_arg,
  dump_arg, status_arg, metrics_arg, list_arg, version_arg, collapsed_arg, flamegraph_arg, tree_arg,
  jfr_arg, jfropts_arg, jfrsync_arg, traces_arg, flat_arg, otlp_arg, samples_arg, total_arg,
  ratelimit_arg, chunksize_arg, chunktime_arg, event_arg, timeout_arg, loop_arg, memlimit_arg,
  alloc_arg, tlab_arg, nativemem_arg, nofree_arg, trace_arg, lock_arg, nativelock_arg, wall_arg,
  proc_arg, cpu_arg, all_arg, interval_arg, jstackdepth_arg, signal_arg, signalcookie_arg,
  cookiesignal_arg, signalid_arg, signalepoch_arg, features_arg, file_arg, log_arg, loglevel_arg,
  quiet_arg, fdtransfer_arg, filter_arg, include_arg, exclude_arg, threads_arg, sched_arg,
  record_cpu_arg, live_arg, nobatch_arg, alluser_arg, cstack_arg, clock_arg, target_cpu_arg,
  simple_arg, dot_arg, norm_arg, sig_arg, ann_arg, lib_arg, mcache_arg, begin_arg, end_arg,
  nostop_arg, ttsp_arg, title_arg, minwidth_arg, reverse_arg, inverted_arg,
}
use async_profiler.Arguments.Handlers.Formats.{
  Handled, done, fails, on_action, on_format, on_jfropts, on_ratelimit, on_chunksize, on_chunktime,
}
use async_profiler.Arguments.Handlers.Engines.{
  on_engine, on_event, on_event_name, on_timeout, on_loop, on_cpu, on_interval, on_all, is_null,
}
use async_profiler.Arguments.Handlers.Basics.{
  on_basic, on_jstackdepth, on_signal, on_signalcookie, on_cookiesignal, on_cookiesignal_value,
  on_signalepoch, on_features, is_empty, whole_between, whole_epoch,
}
use async_profiler.Arguments.Handlers.Filters.{
  on_filter, on_style, on_graph, on_cstack, on_clock, on_target_cpu, on_ttsp,
}
use async_profiler.Arguments.Handlers.{on_option}

abbrev pub Keeps : Arguments → Handled → Type 0
Keeps a result = result.0.log ≡ a.log

on_jfropts-Keeps : (v : Option Text) (a : Arguments) → Keeps a (on_jfropts v a)
unfolding on_jfropts
on_jfropts-Keeps none a = refl
on_jfropts-Keeps (some value) a = ground arith

on_ratelimit-Keeps : (v : Option Text) (a : Arguments) → Keeps a (on_ratelimit v a)
unfolding on_ratelimit
on_ratelimit-Keeps none a = refl
on_ratelimit-Keeps (some value) a = if_both (Keeps a) _ _ _ refl refl

on_chunksize-Keeps : (v : Option Text) (a : Arguments) → Keeps a (on_chunksize v a)
unfolding on_chunksize
on_chunksize-Keeps none a = refl
on_chunksize-Keeps (some value) a = if_both (Keeps a) _ _ _ refl refl

on_chunktime-Keeps : (v : Option Text) (a : Arguments) → Keeps a (on_chunktime v a)
unfolding on_chunktime
on_chunktime-Keeps none a = refl
on_chunktime-Keeps (some value) a = if_both (Keeps a) _ _ _ refl refl

on_event-Keeps : (v : Option Text) (a : Arguments) → Keeps a (on_event v a)
unfolding on_event on_event_name
on_event-Keeps none a = refl
on_event-Keeps (some []) a = refl
on_event-Keeps (some (c ∷ cs)) a = ground arith

on_timeout-Keeps : (v : Option Text) (a : Arguments) → Keeps a (on_timeout v a)
unfolding on_timeout
on_timeout-Keeps none a = refl
on_timeout-Keeps (some value) a = if_both (Keeps a) _ _ _ refl refl

on_loop-Keeps : (v : Option Text) (a : Arguments) → Keeps a (on_loop v a)
unfolding on_loop
on_loop-Keeps none a = refl
on_loop-Keeps (some value) a = if_both (Keeps a) _ _ _ refl refl

on_cpu-Keeps : (a : Arguments) → Keeps a (on_cpu a)
unfolding on_cpu
on_cpu-Keeps a = if_both (Keeps a) _ _ _ refl refl

on_interval-Keeps : (v : Option Text) (a : Arguments) → Keeps a (on_interval v a)
unfolding on_interval
on_interval-Keeps none a = refl
on_interval-Keeps (some value) a = if_both (Keeps a) _ _ _ refl refl

on_jstackdepth-Keeps : (v : Option Text) (a : Arguments) → Keeps a (on_jstackdepth v a)
unfolding on_jstackdepth
on_jstackdepth-Keeps none a = refl
on_jstackdepth-Keeps (some value) a = if_both (Keeps a) _ _ _ refl refl

on_signal-Keeps : (v : Option Text) (a : Arguments) → Keeps a (on_signal v a)
unfolding on_signal
on_signal-Keeps none a = refl
on_signal-Keeps (some value) a = if_both (Keeps a) _ _ _ refl refl

on_signalcookie-Keeps : (v : Option Text) (a : Arguments) → Keeps a (on_signalcookie v a)
unfolding on_signalcookie
on_signalcookie-Keeps none a = refl
on_signalcookie-Keeps (some value) a = ground arith

on_cookiesignal-Keeps : (v : Option Text) (a : Arguments) → Keeps a (on_cookiesignal v a)
unfolding on_cookiesignal on_cookiesignal_value
on_cookiesignal-Keeps none a = refl
on_cookiesignal-Keeps (some []) a = refl
on_cookiesignal-Keeps (some (c ∷ cs)) a =
    if_both (Keeps a) (text_eq (c ∷ cs) (codes "auto")) _ _ refl
      (elim (whole_between 1 255 (strtol 10 (c ∷ cs)))
        as (λ n. Keeps a (elim n as (λ _. Handled) [
          | none ↦ fails a "cookiesignal must be a positive signal number"
          | some n ↦ done (record a { cookie_signal = pos n })
        ])) [ none ↦ refl | some n ↦ refl ])

on_signalepoch-Keeps : (v : Option Text) (a : Arguments) → Keeps a (on_signalepoch v a)
unfolding on_signalepoch
on_signalepoch-Keeps none a = refl
on_signalepoch-Keeps (some []) a = refl
on_signalepoch-Keeps (some (c ∷ cs)) a =
    elim (whole_epoch (strtoull (c ∷ cs)))
      as (λ n. Keeps a (elim n as (λ _. Handled) [
        | none ↦ fails a "signalepoch must be an unsigned 32-bit value"
        | some n ↦ done (record a { signal_epoch = n })
      ])) [ none ↦ refl | some n ↦ refl ]

on_features-Keeps : (v : Option Text) (a : Arguments) → Keeps a (on_features v a)
unfolding on_features
on_features-Keeps none a = refl
on_features-Keeps (some value) a = refl

on_cstack-Keeps : (v : Option Text) (a : Arguments) → (on_cstack v a).log ≡ a.log
unfolding on_cstack
on_cstack-Keeps none a = refl
on_cstack-Keeps (some value) a = ground arith

on_clock-Keeps : (v : Option Text) (a : Arguments) → (on_clock v a).log ≡ a.log
unfolding on_clock
on_clock-Keeps none a = refl
on_clock-Keeps (some value) a = ground arith

on_target_cpu-Keeps : (v : Option Text) (a : Arguments) → (on_target_cpu v a).log ≡ a.log
unfolding on_target_cpu
on_target_cpu-Keeps none a = refl
on_target_cpu-Keeps (some value) a = refl

on_ttsp-Keeps : (a : Arguments) → Keeps a (on_ttsp a)
unfolding on_ttsp
on_ttsp-Keeps a = if_both (Keeps a) _ _ _ refl refl

on_action-Keeps : (o : ActionArg) (a : Arguments) → Keeps a (on_action o a)
unfolding on_action
on_action-Keeps start_arg a = refl
on_action-Keeps resume_arg a = refl
on_action-Keeps stop_arg a = refl
on_action-Keeps dump_arg a = refl
on_action-Keeps status_arg a = refl
on_action-Keeps metrics_arg a = refl
on_action-Keeps list_arg a = refl
on_action-Keeps version_arg a = refl

on_format-Keeps : (o : FormatArg) (v : Option Text) (a : Arguments) → Keeps a (on_format o v a)
unfolding on_format
on_format-Keeps collapsed_arg v a = refl
on_format-Keeps flamegraph_arg v a = refl
on_format-Keeps tree_arg v a = refl
on_format-Keeps jfr_arg v a = refl
on_format-Keeps jfropts_arg v a = on_jfropts-Keeps v a
on_format-Keeps jfrsync_arg v a = refl
on_format-Keeps traces_arg v a = refl
on_format-Keeps flat_arg v a = refl
on_format-Keeps otlp_arg v a = refl
on_format-Keeps samples_arg v a = refl
on_format-Keeps total_arg v a = refl
on_format-Keeps ratelimit_arg v a = on_ratelimit-Keeps v a
on_format-Keeps chunksize_arg v a = on_chunksize-Keeps v a
on_format-Keeps chunktime_arg v a = on_chunktime-Keeps v a

on_engine-Keeps :
    (is_linux : Bool) (o : EngineArg) (v : Option Text) (a : Arguments)
    → Keeps a (on_engine is_linux o v a)
unfolding on_engine on_all
on_engine-Keeps is_linux event_arg v a = on_event-Keeps v a
on_engine-Keeps is_linux timeout_arg v a = on_timeout-Keeps v a
on_engine-Keeps is_linux loop_arg v a = on_loop-Keeps v a
on_engine-Keeps is_linux memlimit_arg v a = refl
on_engine-Keeps is_linux alloc_arg v a = refl
on_engine-Keeps is_linux tlab_arg v a = refl
on_engine-Keeps is_linux nativemem_arg v a = refl
on_engine-Keeps is_linux nofree_arg v a = refl
on_engine-Keeps is_linux trace_arg v a = refl
on_engine-Keeps is_linux lock_arg v a = refl
on_engine-Keeps is_linux nativelock_arg v a = refl
on_engine-Keeps is_linux wall_arg v a = refl
on_engine-Keeps is_linux proc_arg v a = refl
on_engine-Keeps is_linux cpu_arg v a = on_cpu-Keeps a
on_engine-Keeps is_linux all_arg v a = refl
on_engine-Keeps is_linux interval_arg v a = on_interval-Keeps v a

on_basic-Keeps :
    (o : BasicArg) (v : Option Text) (a : Arguments) → o ≢ log_arg → Keeps a (on_basic o v a)
unfolding on_basic
on_basic-Keeps jstackdepth_arg v a h = on_jstackdepth-Keeps v a
on_basic-Keeps signal_arg v a h = on_signal-Keeps v a
on_basic-Keeps signalcookie_arg v a h = on_signalcookie-Keeps v a
on_basic-Keeps cookiesignal_arg v a h = on_cookiesignal-Keeps v a
on_basic-Keeps signalid_arg v a h = if_both (Keeps a) (is_empty v) _ _ refl refl
on_basic-Keeps signalepoch_arg v a h = on_signalepoch-Keeps v a
on_basic-Keeps features_arg v a h = on_features-Keeps v a
on_basic-Keeps file_arg v a h = if_both (Keeps a) (is_empty v) _ _ refl refl
on_basic-Keeps log_arg v a h = absurd (h refl)
on_basic-Keeps loglevel_arg v a h = if_both (Keeps a) (is_empty v) _ _ refl refl
on_basic-Keeps quiet_arg v a h = refl
on_basic-Keeps fdtransfer_arg v a h = if_both (Keeps a) (is_empty v) _ _ refl refl

on_filter-Keeps : (o : FilterArg) (v : Option Text) (a : Arguments) → Keeps a (on_filter o v a)
unfolding on_filter
on_filter-Keeps filter_arg v a = refl
on_filter-Keeps include_arg v a = refl
on_filter-Keeps exclude_arg v a = refl
on_filter-Keeps threads_arg v a = refl
on_filter-Keeps sched_arg v a = refl
on_filter-Keeps record_cpu_arg v a = refl
on_filter-Keeps live_arg v a = refl
on_filter-Keeps nobatch_arg v a = refl
on_filter-Keeps alluser_arg v a = refl
on_filter-Keeps cstack_arg v a = on_cstack-Keeps v a
on_filter-Keeps clock_arg v a = on_clock-Keeps v a
on_filter-Keeps target_cpu_arg v a = on_target_cpu-Keeps v a

on_style-Keeps : (o : StyleArg) (v : Option Text) (a : Arguments) → Keeps a (on_style o v a)
unfolding on_style
on_style-Keeps simple_arg v a = refl
on_style-Keeps dot_arg v a = refl
on_style-Keeps norm_arg v a = refl
on_style-Keeps sig_arg v a = refl
on_style-Keeps ann_arg v a = refl
on_style-Keeps lib_arg v a = refl
on_style-Keeps mcache_arg v a = refl
on_style-Keeps begin_arg v a = refl
on_style-Keeps end_arg v a = refl
on_style-Keeps nostop_arg v a = refl
on_style-Keeps ttsp_arg v a = on_ttsp-Keeps a

on_graph-Keeps : (o : GraphArg) (v : Option Text) (a : Arguments) → Keeps a (on_graph o v a)
unfolding on_graph
on_graph-Keeps title_arg v a = refl
on_graph-Keeps minwidth_arg v a =
    if_both (λ (b : Arguments). b.log ≡ a.log) (is_null v) _ _ refl refl
on_graph-Keeps reverse_arg v a = refl
on_graph-Keeps inverted_arg v a = refl

-- Only the option `log` changes the log file.
pub on_option-Keeps :
    (is_linux : Bool) (o : OptionArg) (v : Option Text) (a : Arguments)
    → o ≢ a_basic log_arg
    → Keeps a (on_option is_linux o v a)
unfolding on_option
on_option-Keeps is_linux (an_action o) v a h = on_action-Keeps o a
on_option-Keeps is_linux (a_format o) v a h = on_format-Keeps o v a
on_option-Keeps is_linux (an_engine o) v a h = on_engine-Keeps is_linux o v a
on_option-Keeps is_linux (a_basic o) v a h = on_basic-Keeps o v a (λ e. h (ap a_basic e))
on_option-Keeps is_linux (a_filter o) v a h = on_filter-Keeps o v a
on_option-Keeps is_linux (a_style o) v a h = on_style-Keeps o v a
on_option-Keeps is_linux (a_graph o) v a h = on_graph-Keeps o v a
