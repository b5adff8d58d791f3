-- ===== src/Dictionary/Tests.antt =====
-- Tests and examples of Dictionary.
use async_profiler.Base.{ℕ, ◌*◌, ◌+◌, ◌≤◌, ◌≡◌, ◌≢◌, ◌^◌, refl, some, arith}
use async_profiler.Base.Texts.{codes, text_eq}
use async_profiler.Dictionary.{Dictionary, new, hash, lookup, put_key}
use async_profiler.Dictionary.Contents.{IsValid}
use async_profiler.Dictionary.Names.{Looked, lookup-Looked, lookup_distinct}

new-IsValid : IsValid new
new-IsValid = record {
  rooted = omega arith;
  links = λ t r n low e. absurd (ground arith);
  bases = λ t low. ground arith;
  counter = refl;
}

hash_of_main : hash (codes "main") ≡ 3935363592
unfolding hash
hash_of_main = refl

lookup-Looked_example :
    (i : ℕ) × (d : Dictionary) × (lookup (codes "main") new ≡ some (i, d))
    × Looked new (codes "main") i d
lookup-Looked_example = lookup-Looked new (codes "main") new-IsValid

abbrev with_main : Dictionary
with_main = put_key new 0 8 0 (codes "main")

abbrev with_run : Dictionary
with_run = put_key with_main 0 74 0 (codes "run")

main_first : lookup (codes "main") new ≡ some (9, with_main)
unfolding lookup
main_first = refl

run_second : lookup (codes "run") with_main ≡ some (75, with_run)
unfolding lookup put_key
run_second = refl

main_again : lookup (codes "main") with_run ≡ some (9, with_run)
unfolding lookup put_key text_eq
main_again = refl

few_tables : 1 + 384 * with_run.count ≤ 2 ^ 32
unfolding put_key
few_tables = omega arith

abbrev main_index : ℕ
main_index = 9

abbrev run_index : ℕ
run_index = 75

lookup_distinct_example : main_index ≢ run_index
lookup_distinct_example =
    lookup_distinct new with_main with_run (codes "main") (codes "run") 9 75 new-IsValid
      (λ e. absurd (ground arith)) main_first run_second few_tables
