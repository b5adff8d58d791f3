-- ===== src/ThreadFilter/Init.antt =====
-- `ThreadFilter::init` of src/threadFilter.cpp: the ids of a filter text, such as `120-127,130`, are
-- added to the set.
use async_profiler.Base.{
  ℕ, zero, suc, ◌+◌, ◌-◌, ◌^◌, true, false, [], ◌∷◌, Option, none, some, if◌then◌else◌, ◌==◌, ◌>>=◌,
  length,
}
use async_profiler.Base.Int.{ℤ, pos, negsuc}
use async_profiler.Base.Texts.{Text, strtol, to_int}
use async_profiler.Os.{Os}
use async_profiler.ThreadFilter.{ThreadFilter, add}

-- What one token names: a thread, or the threads from one id to another.
pub data Ids : Type 0 where
  one : ℕ → Ids
  range : ℕ → ℤ → Ids

abbrev pub range_end : ℕ → Text → Option (ℤ × Text) → Ids × Text
range_end id rest none = (range id (pos 0), rest)
range_end id rest (some (to, end)) = (range id (to_int to), end)

-- The token behind its first id.
unfoldable pub ids_from : ℕ → Text → Ids × Text
ids_from id [] = (one id, [])
ids_from id (c ∷ rest) = if c == b'-' then range_end id rest (strtol 0 rest) else (one id, c ∷ rest)

unfoldable pub positive_ids : ℤ → Text → Option (Ids × Text)
unfolding ids_from
positive_ids (pos id) end = if id == 0 then none else some (ids_from id end)
positive_ids (negsuc _) end = none

abbrev pub first_ids : Option (ℤ × Text) → Option (Ids × Text)
first_ids none = none
first_ids (some (id, end)) = positive_ids (to_int id) end

-- The ids at the front of a text and what `end` points to then; `none` for the `break`.
unfoldable pub next_ids : Text → Option (Ids × Text)
unfolding positive_ids
next_ids filter = first_ids (strtol 0 filter)

-- The rounds of `while (id <= to)`.
unfoldable pub range_rounds : ℕ → ℤ → ℕ
range_rounds id (pos to) = to + 1 - id
range_rounds id (negsuc _) = 0

module _ (os : Os) where
  open os use {State}

  -- `add(id++)`; the increment of the largest `int` is undefined, `none`.
  unfoldable pub add_range : ℕ → ℕ → ThreadFilter → State → Option (ThreadFilter × State)
  add_range zero id f s = some (f, s)
  add_range (suc left) id f s =
      add os f id s >>= (λ (g, s'). if id == 2 ^ 31 - 1 then none else add_range left (id + 1) g s')

  unfoldable pub add_ids : Ids → ThreadFilter → State → Option (ThreadFilter × State)
  unfolding add_range range_rounds
  add_ids (one id) f s = add os f id s
  add_ids (range id to) f s = add_range (range_rounds id to) id f s

  -- The loop over the tokens, on fuel: a round reads a character at least.
  unfoldable pub init_from : ℕ → Text → ThreadFilter → State → Option (ThreadFilter × State)
  unfolding next_ids add_ids
  init_from zero filter f s = none
  init_from (suc fuel) filter f s = elim (next_ids filter) [
    | none ↦ some (f, s)
    | some (ids, end) ↦
        add_ids ids f s
        >>= (λ (g, s'). elim end [ [] ↦ some (g, s') | _ ∷ rest ↦ init_from fuel rest g s' ])
  ]

  unfoldable pub init : Option Text → ThreadFilter → State → Option (ThreadFilter × State)
  unfolding init_from
  init none f s = some (record f { enabled = false }, s)
  init (some filter) f s =
      init_from (suc (length filter)) filter f s
      >>= (λ (g, s'). some (record g { enabled = true }, s'))
