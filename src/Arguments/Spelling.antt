-- ===== src/Arguments/Spelling.antt =====
-- The names of the options in `parse` of src/arguments.cpp, and which arguments are taken for them.
use async_profiler.Base.{
  ℕ, ◌≡◌, refl, sym, ◌∙◌, ap, subst, arith, Bool, true, false, List, [], ◌∷◌, Option, some,
  if◌then◌else◌, ◌==◌, leb, ◌↔◌, ◌⊎◌, length, map, inl, inr, ◌&&◌,
}
use mathlib.Core.Option.{some-injective}
use async_profiler.Base.Texts.{Text, codes}
use async_profiler.Arguments.Hashes.{
  low_bits, has_bits, IsShort, hash_of_bits, hash_from_low, hash_same,
}
use async_profiler.Arguments.Names.{
  OptionArg, an_action, a_format, an_engine, a_basic, a_filter, a_style, a_graph, ActionArg,
  start_arg, resume_arg, stop_arg, dump_arg, status_arg, metrics_arg, list_arg, version_arg,
  FormatArg, collapsed_arg, flamegraph_arg, tree_arg, jfr_arg, jfropts_arg, jfrsync_arg, traces_arg,
  flat_arg, otlp_arg, samples_arg, total_arg, ratelimit_arg, chunksize_arg, chunktime_arg,
  EngineArg, event_arg, timeout_arg, loop_arg, memlimit_arg, alloc_arg, tlab_arg, nativemem_arg,
  nofree_arg, trace_arg, lock_arg, nativelock_arg, wall_arg, proc_arg, cpu_arg, all_arg,
  interval_arg, BasicArg, jstackdepth_arg, signal_arg, signalcookie_arg, cookiesignal_arg,
  signalid_arg, signalepoch_arg, features_arg, file_arg, log_arg, loglevel_arg, quiet_arg,
  fdtransfer_arg, FilterArg, filter_arg, include_arg, exclude_arg, threads_arg, sched_arg,
  record_cpu_arg, live_arg, nobatch_arg, alluser_arg, cstack_arg, clock_arg, target_cpu_arg,
  StyleArg, simple_arg, dot_arg, norm_arg, sig_arg, ann_arg, lib_arg, mcache_arg, begin_arg,
  end_arg, nostop_arg, ttsp_arg, GraphArg, title_arg, minwidth_arg, reverse_arg, inverted_arg, hash,
  case_hash, find_case, option_of, cases,
}

abbrev name_of_action : ActionArg → Text
name_of_action start_arg = codes "start"
name_of_action resume_arg = codes "resume"
name_of_action stop_arg = codes "stop"
name_of_action dump_arg = codes "dump"
name_of_action status_arg = codes "status"
name_of_action metrics_arg = codes "metrics"
name_of_action list_arg = codes "list"
name_of_action version_arg = codes "version"

abbrev name_of_format : FormatArg → Text
name_of_format collapsed_arg = codes "collapsed"
name_of_format flamegraph_arg = codes "flamegraph"
name_of_format tree_arg = codes "tree"
name_of_format jfr_arg = codes "jfr"
name_of_format jfropts_arg = codes "jfropts"
name_of_format jfrsync_arg = codes "jfrsync"
name_of_format traces_arg = codes "traces"
name_of_format flat_arg = codes "flat"
name_of_format otlp_arg = codes "otlp"
name_of_format samples_arg = codes "samples"
name_of_format total_arg = codes "total"
name_of_format ratelimit_arg = codes "ratelimit"
name_of_format chunksize_arg = codes "chunksize"
name_of_format chunktime_arg = codes "chunktime"

abbrev name_of_engine : EngineArg → Text
name_of_engine event_arg = codes "event"
name_of_engine timeout_arg = codes "timeout"
name_of_engine loop_arg = codes "loop"
name_of_engine memlimit_arg = codes "memlimit"
name_of_engine alloc_arg = codes "alloc"
name_of_engine tlab_arg = codes "tlab"
name_of_engine nativemem_arg = codes "nativemem"
name_of_engine nofree_arg = codes "nofree"
name_of_engine trace_arg = codes "trace"
name_of_engine lock_arg = codes "lock"
name_of_engine nativelock_arg = codes "nativelock"
name_of_engine wall_arg = codes "wall"
name_of_engine proc_arg = codes "proc"
name_of_engine cpu_arg = codes "cpu"
name_of_engine all_arg = codes "all"
name_of_engine interval_arg = codes "interval"

abbrev name_of_basic : BasicArg → Text
name_of_basic jstackdepth_arg = codes "jstackdepth"
name_of_basic signal_arg = codes "signal"
name_of_basic signalcookie_arg = codes "signalcookie"
name_of_basic cookiesignal_arg = codes "cookiesignal"
name_of_basic signalid_arg = codes "signalid"
name_of_basic signalepoch_arg = codes "signalepoch"
name_of_basic features_arg = codes "features"
name_of_basic file_arg = codes "file"
name_of_basic log_arg = codes "log"
name_of_basic loglevel_arg = codes "loglevel"
name_of_basic quiet_arg = codes "quiet"
name_of_basic fdtransfer_arg = codes "fdtransfer"

abbrev name_of_filter : FilterArg → Text
name_of_filter filter_arg = codes "filter"
name_of_filter include_arg = codes "include"
name_of_filter exclude_arg = codes "exclude"
name_of_filter threads_arg = codes "threads"
name_of_filter sched_arg = codes "sched"
name_of_filter record_cpu_arg = codes "record-cpu"
name_of_filter live_arg = codes "live"
name_of_filter nobatch_arg = codes "nobatch"
name_of_filter alluser_arg = codes "alluser"
name_of_filter cstack_arg = codes "cstack"
name_of_filter clock_arg = codes "clock"
name_of_filter target_cpu_arg = codes "target-cpu"

abbrev name_of_style : StyleArg → Text
name_of_style simple_arg = codes "simple"
name_of_style dot_arg = codes "dot"
name_of_style norm_arg = codes "norm"
name_of_style sig_arg = codes "sig"
name_of_style ann_arg = codes "ann"
name_of_style lib_arg = codes "lib"
name_of_style mcache_arg = codes "mcache"
name_of_style begin_arg = codes "begin"
name_of_style end_arg = codes "end"
name_of_style nostop_arg = codes "nostop"
name_of_style ttsp_arg = codes "ttsp"

abbrev name_of_graph : GraphArg → Text
name_of_graph title_arg = codes "title"
name_of_graph minwidth_arg = codes "minwidth"
name_of_graph reverse_arg = codes "reverse"
name_of_graph inverted_arg = codes "inverted"

-- The documented name of an option.
abbrev pub name_of : OptionArg → Text
name_of (an_action o) = name_of_action o
name_of (a_format o) = name_of_format o
name_of (an_engine o) = name_of_engine o
name_of (a_basic o) = name_of_basic o
name_of (a_filter o) = name_of_filter o
name_of (a_style o) = name_of_style o
name_of (a_graph o) = name_of_graph o

option_of-name_of_action : (o : ActionArg) → option_of (name_of_action o) ≡ some (an_action o)
unfolding option_of
option_of-name_of_action start_arg = refl
option_of-name_of_action resume_arg = refl
option_of-name_of_action stop_arg = refl
option_of-name_of_action dump_arg = refl
option_of-name_of_action status_arg = refl
option_of-name_of_action metrics_arg = refl
option_of-name_of_action list_arg = refl
option_of-name_of_action version_arg = refl

option_of-name_of_format : (o : FormatArg) → option_of (name_of_format o) ≡ some (a_format o)
unfolding option_of
option_of-name_of_format collapsed_arg = refl
option_of-name_of_format flamegraph_arg = refl
option_of-name_of_format tree_arg = refl
option_of-name_of_format jfr_arg = refl
option_of-name_of_format jfropts_arg = refl
option_of-name_of_format jfrsync_arg = refl
option_of-name_of_format traces_arg = refl
option_of-name_of_format flat_arg = refl
option_of-name_of_format otlp_arg = refl
option_of-name_of_format samples_arg = refl
option_of-name_of_format total_arg = refl
option_of-name_of_format ratelimit_arg = refl
option_of-name_of_format chunksize_arg = refl
option_of-name_of_format chunktime_arg = refl

option_of-name_of_engine : (o : EngineArg) → option_of (name_of_engine o) ≡ some (an_engine o)
unfolding option_of
option_of-name_of_engine event_arg = refl
option_of-name_of_engine timeout_arg = refl
option_of-name_of_engine loop_arg = refl
option_of-name_of_engine memlimit_arg = refl
option_of-name_of_engine alloc_arg = refl
option_of-name_of_engine tlab_arg = refl
option_of-name_of_engine nativemem_arg = refl
option_of-name_of_engine nofree_arg = refl
option_of-name_of_engine trace_arg = refl
option_of-name_of_engine lock_arg = refl
option_of-name_of_engine nativelock_arg = refl
option_of-name_of_engine wall_arg = refl
option_of-name_of_engine proc_arg = refl
option_of-name_of_engine cpu_arg = refl
option_of-name_of_engine all_arg = refl
option_of-name_of_engine interval_arg = refl

option_of-name_of_basic : (o : BasicArg) → option_of (name_of_basic o) ≡ some (a_basic o)
unfolding option_of
option_of-name_of_basic jstackdepth_arg = refl
option_of-name_of_basic signal_arg = refl
option_of-name_of_basic signalcookie_arg = refl
option_of-name_of_basic cookiesignal_arg = refl
option_of-name_of_basic signalid_arg = refl
option_of-name_of_basic signalepoch_arg = refl
option_of-name_of_basic features_arg = refl
option_of-name_of_basic file_arg = refl
option_of-name_of_basic log_arg = refl
option_of-name_of_basic loglevel_arg = refl
option_of-name_of_basic quiet_arg = refl
option_of-name_of_basic fdtransfer_arg = refl

option_of-name_of_filter : (o : FilterArg) → option_of (name_of_filter o) ≡ some (a_filter o)
unfolding option_of
option_of-name_of_filter filter_arg = refl
option_of-name_of_filter include_arg = refl
option_of-name_of_filter exclude_arg = refl
option_of-name_of_filter threads_arg = refl
option_of-name_of_filter sched_arg = refl
option_of-name_of_filter record_cpu_arg = refl
option_of-name_of_filter live_arg = refl
option_of-name_of_filter nobatch_arg = refl
option_of-name_of_filter alluser_arg = refl
option_of-name_of_filter cstack_arg = refl
option_of-name_of_filter clock_arg = refl
option_of-name_of_filter target_cpu_arg = refl

option_of-name_of_style : (o : StyleArg) → option_of (name_of_style o) ≡ some (a_style o)
unfolding option_of
option_of-name_of_style simple_arg = refl
option_of-name_of_style dot_arg = refl
option_of-name_of_style norm_arg = refl
option_of-name_of_style sig_arg = refl
option_of-name_of_style ann_arg = refl
option_of-name_of_style lib_arg = refl
option_of-name_of_style mcache_arg = refl
option_of-name_of_style begin_arg = refl
option_of-name_of_style end_arg = refl
option_of-name_of_style nostop_arg = refl
option_of-name_of_style ttsp_arg = refl

option_of-name_of_graph : (o : GraphArg) → option_of (name_of_graph o) ≡ some (a_graph o)
unfolding option_of
option_of-name_of_graph title_arg = refl
option_of-name_of_graph minwidth_arg = refl
option_of-name_of_graph reverse_arg = refl
option_of-name_of_graph inverted_arg = refl

pub option_of-name_of : (o : OptionArg) → option_of (name_of o) ≡ some o
option_of-name_of (an_action o) = option_of-name_of_action o
option_of-name_of (a_format o) = option_of-name_of_format o
option_of-name_of (an_engine o) = option_of-name_of_engine o
option_of-name_of (a_basic o) = option_of-name_of_basic o
option_of-name_of (a_filter o) = option_of-name_of_filter o
option_of-name_of (a_style o) = option_of-name_of_style o
option_of-name_of (a_graph o) = option_of-name_of_graph o

-- Every case compares with the hash of the name of its option, which is short.
abbrev fits_name : List (Text × OptionArg) → Bool
fits_name [] = true
fits_name ((name, o) ∷ rest) =
    ((case_hash name == hash (name_of o)) && (leb (length (name_of o)) 12 && has_bits (name_of o)))
    && fits_name rest

cases_fit : fits_name cases ≡ true
unfolding case_hash
cases_fit = refl

-- A test that yields an option took one of its branches.
if_some {ℓ} :
    {A : Type ℓ} (b : Bool) (x y : A) (other : Option A)
    → (if b then some x else other) ≡ some y
    → ((b ≡ true) × (x ≡ y)) ⊎ ((b ≡ false) × (other ≡ some y))
if_some true x y other e = inl (refl, some-injective x y e)
if_some false x y other e = inr (refl, e)

-- What the check says of the first entry.
entry_fits :
    (h : ℕ) (name : Text) (o : OptionArg) (rest : List (Text × OptionArg))
    → fits_name ((name, o) ∷ rest) ≡ true
    → (h == case_hash name) ≡ true
    → (h ≡ hash (name_of o)) × IsShort (name_of o)
entry_fits h name o rest fits e = ground arith

find_case-fits :
    (h : ℕ) (entries : List (Text × OptionArg)) (o : OptionArg)
    → fits_name entries ≡ true
    → find_case h entries ≡ some o
    → (h ≡ hash (name_of o)) × IsShort (name_of o)
unfolding find_case
find_case-fits h [] o fits e = ground arith
find_case-fits h ((name, o') ∷ rest) o fits e =
    elim (if_some (h == case_hash name) o' o (find_case h rest) e) [
      | inl (found, same) ↦
          subst (λ (x : OptionArg). (h ≡ hash (name_of x)) × IsShort (name_of x)) same
            (entry_fits h name o' rest fits found)
      | inr (_, later) ↦ find_case-fits h rest o (ground arith) later
    ]

-- An argument of at most twelve characters, none of which has its five low bits clear, is taken for
-- an option exactly when its characters agree with those of the option's name in these bits.
pub option_of_iff :
    (arg : Text) (o : OptionArg)
    → IsShort arg
    → (option_of arg ≡ some o) ↔ (map low_bits arg ≡ map low_bits (name_of o))
unfolding option_of hash
option_of_iff arg o short =
    let to : option_of arg ≡ some o → map low_bits arg ≡ map low_bits (name_of o) = λ e.
      let (same, short') = find_case-fits (hash arg) cases o cases_fit e in
      hash_same arg (name_of o) short short' same in
    let from : map low_bits arg ≡ map low_bits (name_of o) → option_of arg ≡ some o = λ e.
      let same : hash arg ≡ hash (name_of o) =
        hash_from_low 0 0 arg ∙ ap (hash_of_bits 0 0) e ∙ sym (hash_from_low 0 0 (name_of o)) in
      ap (λ (h : ℕ). find_case h cases) same ∙ option_of-name_of o in
    (to, from)
