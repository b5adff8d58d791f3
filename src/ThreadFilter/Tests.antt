-- ===== src/ThreadFilter/Tests.antt =====
-- Runs of the thread filter on concrete inputs.
use async_profiler.Base.{◌≡◌, arith, true, false, refl, none, some, if◌then◌else◌, ◌==◌}
use async_profiler.Base.Texts.{Text, codes, strtol}
use async_profiler.Os.{granting, refusing}
use async_profiler.ThreadFilter.{
  ThreadFilter, accept, remove, add, add_at, accept_in, word_index, bit_of,
}
use async_profiler.ThreadFilter.Init.{init, next_ids}
use async_profiler.ThreadFilter.Filtering.{Filters, init-Filters, names_any, tokens, all_end_early}
use async_profiler.ThreadFilter.Members.{AddsOrFaults, Removes, add-Adds, remove-Removes}

-- Thread 5, in the first bitmap.
abbrev only_five : ThreadFilter
only_five = record {
  bitmaps = λ i. if i == 0 then some (λ j. if j == 0 then 32 else 0) else none;
  enabled = true;
  size = 1;
}

add-Adds_example : AddsOrFaults granting only_five 600000 70 (add granting only_five 600000 70)
add-Adds_example = add-Adds granting only_five 600000 70

remove-Removes_example : Removes only_five 5 (remove only_five 5)
remove-Removes_example = remove-Removes only_five 5

-- The fault of `add` when the system refuses to map a bitmap.
add_refused : add refusing only_five 600000 0 ≡ none
unfolding add add_at
add_refused = refl

five_accepted : accept only_five 5 ≡ true
unfolding accept accept_in word_index bit_of
five_accepted = refl

abbrev seven_to_nine : Text
seven_to_nine = codes "7-9,12,-1,20"

early : all_end_early (tokens 13 seven_to_nine) ≡ true
unfolding next_ids strtol
early = refl

init-Filters_example :
    Filters granting only_five
      (names_any (tokens 13 seven_to_nine))
      (init granting (some seven_to_nine) only_five 70)
init-Filters_example =
    init-Filters granting seven_to_nine only_five 70 (λ s n e. absurd (ground arith)) early

-- The tokens end before the first without a positive id.
nine_named : names_any (tokens 13 seven_to_nine) 9 ≡ true
unfolding next_ids strtol
nine_named = refl

twenty_unnamed : names_any (tokens 13 seven_to_nine) 20 ≡ false
unfolding next_ids strtol
twenty_unnamed = refl
