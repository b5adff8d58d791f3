-- ===== src/Arguments/Pattern/Tests.antt =====
-- Tests and examples of Arguments/Pattern.
use async_profiler.Base.{ℕ, ◌+◌, ◌<◌, ◌∷◌, ◌≡◌, refl, [], Option, none, some, if◌then◌else◌}
use async_profiler.Base.Texts.{Text, codes, text_eq}
use async_profiler.Arguments.{no_arguments}
use async_profiler.Arguments.Pattern.{
  Environment, extra_buf_size, expand_file_pattern, expand_from, terminated, file_name,
}
use async_profiler.Arguments.Pattern.Bounds.{Keeps, expand_file_pattern_bounds}

-- A process 42 with one variable; numbers print as one digit.
abbrev sample_env : Environment
sample_env = record {
  pid = codes "42";
  timestamp = codes "20240131-235959";
  getenv = λ name. if text_eq name (codes "HOME") then some (codes "/home/me") else none;
  decimal = λ n. (n + b'0') ∷ [];
}

abbrev named : Text → Option Text
named file = file_name sample_env (record no_arguments { file = some file; file_num = 7 }) (λ i. 88)

expands_pid : named (codes "a-%p.jfr") ≡ some (codes "a-42.jfr")
unfolding file_name text_eq
expands_pid = refl

expands_time : named (codes "%t.jfr") ≡ some (codes "20240131-235959.jfr")
unfolding file_name text_eq
expands_time = refl

expands_number : named (codes "a%n{5}b%n") ≡ some (codes "a2b7")
unfolding file_name text_eq
expands_number = refl

expands_variable : named (codes "%{HOME}/%{NONE}") ≡ some (codes "/home/me/{NONE}")
unfolding file_name text_eq
expands_variable = refl

keeps_escape : named (codes "a%20b%%c%") ≡ some (codes "a%20b%c")
unfolding file_name text_eq
keeps_escape = refl

expand_file_pattern_bounds_example :
    Keeps (λ i. 88) (expand_file_pattern sample_env 7 (codes "%{HOME}/%2F%n{5}") (λ i. 88))
    × ((i : ℕ) × (i < extra_buf_size)
        × (expand_file_pattern sample_env 7 (codes "%{HOME}/%2F%n{5}") (λ i. 88) i ≡ 0))
    × ((extra : ℕ)
        → terminated (expand_from sample_env 7 (16 + extra) (codes "%{HOME}/%2F%n{5}") 0 (λ i. 88))
          ≡ expand_file_pattern sample_env 7 (codes "%{HOME}/%2F%n{5}") (λ i. 88))
expand_file_pattern_bounds_example =
    expand_file_pattern_bounds sample_env 7 (codes "%{HOME}/%2F%n{5}") (λ i. 88)
