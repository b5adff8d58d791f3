-- ===== src/Arguments/Tests.antt =====
-- Tests and examples of Arguments.
use async_profiler.Base.{
  ℕ, ◌+◌, ◌≤◌, ◌≡◌, ◌≢◌, ◌↔◌, refl, true, [], ◌∷◌, ◌++◌, none, some, map, arith,
}
use async_profiler.Base.Int.{pos, negsuc, ◌*ℤ◌}
use async_profiler.Base.Texts.{
  Text, codes, before_char, after_char, after_last_char, text_eq, starts_with, strtol, atoi,
}
use async_profiler.Arguments.{Arguments, no_arguments, jfr, dump}
use async_profiler.Arguments.Names.{a_filter, record_cpu_arg, option_of}
use async_profiler.Arguments.Hashes.{low_bits}
use async_profiler.Arguments.Spelling.{name_of, option_of_iff}
use async_profiler.Arguments.Values.{parse_units, parse_timeout, bytes, detect_output_format}
use async_profiler.Arguments.RateLimits.{parse_rate_limit, limit_pairs}
use async_profiler.Arguments.Limits.{IsLimit, parse_rate_limit_lem}
use async_profiler.Arguments.Handlers.Formats.{Handled, on_action}
use async_profiler.Arguments.Handlers.Basics.{on_basic}
use async_profiler.Arguments.Handlers.Engines.{on_engine}
use async_profiler.Arguments.Parse.{parse, tokens, complete}
use async_profiler.Arguments.Loop.{applied, Succeeds, parse_result}
use async_profiler.Arguments.Completion.{Parsed, parse-Completed}
use async_profiler.Arguments.LogFile.{NoLog, parse-log}
use async_profiler.Arguments.Queries.{event_mask}

abbrev parsed : Text → Handled
parsed args = parse true true (some args) no_arguments

splits : tokens (codes "start,,event=cpu,") ≡ codes "start" ∷ codes "event=cpu" ∷ []
unfolding tokens
splits = refl

reads_interval : (parsed (codes "start,interval=10ms,file=a.jfr")).0.interval ≡ pos 10000000
unfolding parse before_char on_basic after_char on_engine parse_units strtol ◌*ℤ◌ on_action
reads_interval = refl

detects_output : (parsed (codes "start,interval=10ms,file=a.jfr")).0.output ≡ jfr
unfolding parse before_char on_basic after_char on_engine parse_units strtol ◌*ℤ◌ on_action
    detect_output_format starts_with after_last_char text_eq
detects_output = refl

dumps_output : (parsed (codes "file=a.html")).0.action ≡ dump
unfolding parse before_char on_basic after_char detect_output_format starts_with after_last_char
    text_eq
dumps_output = refl

last_message : (parsed (codes "interval=0,loglevel=")).1 ≡ some "loglevel must not be empty"
unfolding parse before_char on_basic after_char
last_message = refl

sampled_events : event_mask (parsed (codes "start,alloc=2m,lock,event=wall")).0 ≡ 7
unfolding parse event_mask before_char on_engine after_char text_eq on_action parse_units strtol
    ◌*ℤ◌
sampled_events = refl

reads_size : parse_units (codes "0x10k") bytes ≡ pos 16384
unfolding parse_units strtol ◌*ℤ◌
reads_size = refl

reads_time : parse_timeout (codes "12:30") ≡ negsuc 15982848
unfolding parse_timeout after_char atoi
reads_time = refl

reads_limits : (parse_rate_limit (λ j. negsuc 0) (codes "wall:100;lock:7")).0 3 ≡ pos 100
unfolding parse_rate_limit after_char starts_with before_char strtol
reads_limits = refl

-- A dash and the letter `m` are one to the hash.
option_of_iff_example :
    (option_of (codes "recordmcpu") ≡ some (a_filter record_cpu_arg))
    ↔ (map low_bits (codes "recordmcpu") ≡ map low_bits (name_of (a_filter record_cpu_arg)))
option_of_iff_example = option_of_iff (codes "recordmcpu") (a_filter record_cpu_arg) refl

parse_result_example :
    (((parse true true (some (codes "start,interval=0,total")) no_arguments).1 ≡ none)
      ↔ Succeeds true (tokens (codes "start,interval=0,total")) no_arguments)
    × (((parse true true (some (codes "start,interval=0,total")) no_arguments).1 ≡ none
          → (parse true true (some (codes "start,interval=0,total")) no_arguments).0
            ≡ complete (applied true (tokens (codes "start,interval=0,total")) no_arguments))
        × ((parse true true (some (codes "start,interval=0,total")) no_arguments).1 ≢ none
            → (parse true true (some (codes "start,interval=0,total")) no_arguments).0
              ≡ applied true (tokens (codes "start,interval=0,total")) no_arguments))
parse_result_example = parse_result true (codes "start,interval=0,total") no_arguments

abbrev recorded : Arguments
recorded = (parsed (codes "start,file=a.jfr")).0

parses : parse true true (some (codes "start,file=a.jfr")) no_arguments ≡ (recorded, none)
unfolding parse before_char on_basic after_char on_action
parses = refl

parse-Completed_example : Parsed (some (codes "start,file=a.jfr")) no_arguments recorded
parse-Completed_example =
    parse-Completed true true (some (codes "start,file=a.jfr")) no_arguments recorded parses

split_log :
    tokens (codes "start,log=a.log,loop")
    ≡ (codes "start" ∷ []) ++ codes "log=a.log" ∷ codes "loop" ∷ []
unfolding tokens
split_log = refl

loop_only-NoLog : NoLog (codes "loop" ∷ [])
unfolding option_of before_char
loop_only-NoLog = ((λ e. absurd (ground arith)), tt)

parse-log_example :
    (parse true true (some (codes "start,log=a.log,loop")) no_arguments).0.log
    ≡ some (codes "a.log")
unfolding option_of before_char after_char
parse-log_example =
    parse-log true (codes "start,log=a.log,loop") (codes "a.log") (codes "log=a.log")
      (codes "start" ∷ []) (codes "loop" ∷ []) no_arguments split_log refl refl
      (λ e. absurd (ground arith)) loop_only-NoLog

parse_rate_limit_lem_example :
    ((j : ℕ)
      → (8 ≤ j → (parse_rate_limit (λ i. negsuc 0) (codes "cpu:5;wall:9")).0 j ≡ negsuc 0)
        × (IsLimit (negsuc 0)
            → IsLimit ((parse_rate_limit (λ i. negsuc 0) (codes "cpu:5;wall:9")).0 j)))
    × ((extra : ℕ)
        → limit_pairs (12 + extra) (λ i. negsuc 0) (codes "cpu:5;wall:9")
          ≡ parse_rate_limit (λ i. negsuc 0) (codes "cpu:5;wall:9"))
parse_rate_limit_lem_example = parse_rate_limit_lem (λ i. negsuc 0) (codes "cpu:5;wall:9")
