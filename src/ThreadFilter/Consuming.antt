-- ===== src/ThreadFilter/Consuming.antt =====
-- The texts that are left behind the tokens of `ThreadFilter::init`, src/threadFilter.cpp.
use async_profiler.Base.{ℕ, ◌≤◌, arith, [], ◌∷◌, Option, none, some, ◌==◌, length, if_cases}
use async_profiler.Base.Int.{ℤ, pos, negsuc}
use async_profiler.Base.Texts.{Text, strtol, to_int}
use async_profiler.Base.Lengths.{NumberWithin, strtol-Within}
use async_profiler.ThreadFilter.Init.{one, next_ids, ids_from, range_end, positive_ids, first_ids}

range_end-Within :
    (n id : ℕ) (rest : Text) (o : Option (ℤ × Text))
    → length rest ≤ n
    → NumberWithin n o
    → length (range_end id rest o).1 ≤ n
range_end-Within n id rest none l h = l
range_end-Within n id rest (some (to, end)) l h = h

ids_from-Within : (n id : ℕ) (end : Text) → length end ≤ n → length (ids_from id end).1 ≤ n
unfolding ids_from
ids_from-Within n id [] l = l
ids_from-Within n id (c ∷ rest) l =
    if_cases (λ o. length o.1 ≤ n) (c == b'-') (range_end id rest (strtol 0 rest))
      (one id, c ∷ rest)
      (λ _.
        range_end-Within n id rest (strtol 0 rest) (omega arith)
          (strtol-Within 0 n rest (omega arith)))
      (λ _. l)

positive_ids-Within :
    (n : ℕ) (id : ℤ) (end : Text) → length end ≤ n → NumberWithin n (positive_ids id end)
unfolding positive_ids
positive_ids-Within n (pos id) end l =
    if_cases (NumberWithin n) (id == 0) none (some (ids_from id end)) (λ _. tt)
      (λ _. ids_from-Within n id end l)
positive_ids-Within n (negsuc id) end l = tt

first_ids-Within : (n : ℕ) (o : Option (ℤ × Text)) → NumberWithin n o → NumberWithin n (first_ids o)
first_ids-Within n none h = tt
first_ids-Within n (some (id, end)) h = positive_ids-Within n (to_int id) end h

pub next_ids-Within : (n : ℕ) (filter : Text) → length filter ≤ n → NumberWithin n (next_ids filter)
unfolding next_ids
next_ids-Within n filter l = first_ids-Within n (strtol 0 filter) (strtol-Within 0 n filter l)
