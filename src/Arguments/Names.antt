-- ===== src/Arguments/Names.antt =====
-- The names of the options, and how src/arguments.cpp tells them apart: by a hash of five bits for
-- each character.
use async_profiler.Base.{
  ℕ, ◌+◌, ◌*◌, ◌%◌, ◌^◌, List, [], ◌∷◌, ◌++◌, Option, none, some, if◌then◌else◌, ◌==◌, take,
  bit_and, bit_or,
}
use async_profiler.Base.Texts.{Text, codes}

-- The cases of `parse` for the actions.
pub data ActionArg : Type 0 where
  start_arg resume_arg stop_arg dump_arg status_arg metrics_arg list_arg : ActionArg
  version_arg : ActionArg

-- The cases of `parse` for the output formats.
pub data FormatArg : Type 0 where
  collapsed_arg flamegraph_arg tree_arg jfr_arg jfropts_arg jfrsync_arg : FormatArg
  traces_arg flat_arg otlp_arg samples_arg total_arg ratelimit_arg chunksize_arg : FormatArg
  chunktime_arg : FormatArg

-- The cases of `parse` for the events and their intervals.
pub data EngineArg : Type 0 where
  event_arg timeout_arg loop_arg memlimit_arg alloc_arg tlab_arg nativemem_arg : EngineArg
  nofree_arg trace_arg lock_arg nativelock_arg wall_arg proc_arg cpu_arg : EngineArg
  all_arg interval_arg : EngineArg

-- The cases of `parse` for the other basic options.
pub data BasicArg : Type 0 where
  jstackdepth_arg signal_arg signalcookie_arg cookiesignal_arg signalid_arg : BasicArg
  signalepoch_arg features_arg file_arg log_arg loglevel_arg quiet_arg : BasicArg
  fdtransfer_arg : BasicArg

-- The cases of `parse` for the filters.
pub data FilterArg : Type 0 where
  filter_arg include_arg exclude_arg threads_arg sched_arg record_cpu_arg : FilterArg
  live_arg nobatch_arg alluser_arg cstack_arg clock_arg target_cpu_arg : FilterArg

-- The cases of `parse` for the output style modifiers.
pub data StyleArg : Type 0 where
  simple_arg dot_arg norm_arg sig_arg ann_arg lib_arg mcache_arg begin_arg : StyleArg
  end_arg nostop_arg ttsp_arg : StyleArg

-- The cases of `parse` for the flame graph options.
pub data GraphArg : Type 0 where
  title_arg minwidth_arg reverse_arg inverted_arg : GraphArg

pub data OptionArg : Type 0 where
  an_action : ActionArg → OptionArg
  a_format : FormatArg → OptionArg
  an_engine : EngineArg → OptionArg
  a_basic : BasicArg → OptionArg
  a_filter : FilterArg → OptionArg
  a_style : StyleArg → OptionArg
  a_graph : GraphArg → OptionArg

-- The shift grows by five with each character. Bits that go beyond the word are lost here; a shift by
-- 64 or more, which a name of over twelve characters leads to, is undefined in the source.
unfoldable pub hash_from : ℕ → ℕ → Text → ℕ
hash_from shift h [] = h
hash_from shift h (c ∷ cs) = hash_from (shift + 5) (bit_or h (bit_and c 31 * 2 ^ shift % 2 ^ 64)) cs

unfoldable pub hash : Text → ℕ
unfolding hash_from
hash arg = hash_from 0 0 arg

-- CASE(s) compares with HASH(s "            "): the hash of the first twelve characters.
unfoldable pub case_hash : Text → ℕ
unfolding hash
case_hash s = hash (take 12 (s ++ codes "            "))

-- The cases in the order in which they are tried.
abbrev pub cases : List (Text × OptionArg)
cases =
    (codes "start", an_action start_arg)
    ∷ (codes "resume", an_action resume_arg)
    ∷ (codes "stop", an_action stop_arg)
    ∷ (codes "dump", an_action dump_arg)
    ∷ (codes "status", an_action status_arg)
    ∷ (codes "metrics", an_action metrics_arg)
    ∷ (codes "list", an_action list_arg)
    ∷ (codes "version", an_action version_arg)
    ∷ (codes "collapsed", a_format collapsed_arg)
    ∷ (codes "flamegraph", a_format flamegraph_arg)
    ∷ (codes "tree", a_format tree_arg)
    ∷ (codes "jfr", a_format jfr_arg)
    ∷ (codes "jfropts", a_format jfropts_arg)
    ∷ (codes "jfrsync", a_format jfrsync_arg)
    ∷ (codes "traces", a_format traces_arg)
    ∷ (codes "flat", a_format flat_arg)
    ∷ (codes "otlp", a_format otlp_arg)
    ∷ (codes "samples", a_format samples_arg)
    ∷ (codes "total", a_format total_arg)
    ∷ (codes "ratelimit", a_format ratelimit_arg)
    ∷ (codes "chunksize", a_format chunksize_arg)
    ∷ (codes "chunktime", a_format chunktime_arg)
    ∷ (codes "event", an_engine event_arg)
    ∷ (codes "timeout", an_engine timeout_arg)
    ∷ (codes "loop", an_engine loop_arg)
    ∷ (codes "memlimit", an_engine memlimit_arg)
    ∷ (codes "alloc", an_engine alloc_arg)
    ∷ (codes "tlab", an_engine tlab_arg)
    ∷ (codes "nativemem", an_engine nativemem_arg)
    ∷ (codes "nofree", an_engine nofree_arg)
    ∷ (codes "trace", an_engine trace_arg)
    ∷ (codes "lock", an_engine lock_arg)
    ∷ (codes "nativelock", an_engine nativelock_arg)
    ∷ (codes "wall", an_engine wall_arg)
    ∷ (codes "proc", an_engine proc_arg)
    ∷ (codes "cpu", an_engine cpu_arg)
    ∷ (codes "all", an_engine all_arg)
    ∷ (codes "interval", an_engine interval_arg)
    ∷ (codes "jstackdepth", a_basic jstackdepth_arg)
    ∷ (codes "signal", a_basic signal_arg)
    ∷ (codes "signalcookie", a_basic signalcookie_arg)
    ∷ (codes "cookiesignal", a_basic cookiesignal_arg)
    ∷ (codes "signalid", a_basic signalid_arg)
    ∷ (codes "signalepoch", a_basic signalepoch_arg)
    ∷ (codes "features", a_basic features_arg)
    ∷ (codes "file", a_basic file_arg)
    ∷ (codes "log", a_basic log_arg)
    ∷ (codes "loglevel", a_basic loglevel_arg)
    ∷ (codes "quiet", a_basic quiet_arg)
    ∷ (codes "fdtransfer", a_basic fdtransfer_arg)
    ∷ (codes "filter", a_filter filter_arg)
    ∷ (codes "include", a_filter include_arg)
    ∷ (codes "exclude", a_filter exclude_arg)
    ∷ (codes "threads", a_filter threads_arg)
    ∷ (codes "sched", a_filter sched_arg)
    ∷ (codes "record-cpu", a_filter record_cpu_arg)
    ∷ (codes "live", a_filter live_arg)
    ∷ (codes "nobatch", a_filter nobatch_arg)
    ∷ (codes "alluser", a_filter alluser_arg)
    ∷ (codes "cstack", a_filter cstack_arg)
    ∷ (codes "clock", a_filter clock_arg)
    ∷ (codes "target-cpu", a_filter target_cpu_arg)
    ∷ (codes "simple", a_style simple_arg)
    ∷ (codes "dot", a_style dot_arg)
    ∷ (codes "norm", a_style norm_arg)
    ∷ (codes "sig", a_style sig_arg)
    ∷ (codes "ann", a_style ann_arg)
    ∷ (codes "lib", a_style lib_arg)
    ∷ (codes "mcache", a_style mcache_arg)
    ∷ (codes "begin", a_style begin_arg)
    ∷ (codes "end", a_style end_arg)
    ∷ (codes "nostop", a_style nostop_arg)
    ∷ (codes "ttsp", a_style ttsp_arg)
    ∷ (codes "title", a_graph title_arg)
    ∷ (codes "minwidth", a_graph minwidth_arg)
    ∷ (codes "reverse", a_graph reverse_arg)
    ∷ (codes "inverted", a_graph inverted_arg)
    ∷ []

unfoldable pub find_case : ℕ → List (Text × OptionArg) → Option OptionArg
unfolding case_hash
find_case h [] = none
find_case h ((name, o) ∷ rest) =
    let later = find_case h rest in if h == case_hash name then some o else later

-- SWITCH (arg): the case of an argument, or none for DEFAULT.
unfoldable pub option_of : Text → Option OptionArg
unfolding find_case hash
option_of arg = find_case (hash arg) cases
