-- ===== src/ThreadFilter/Filtering.antt =====
-- The threads that the set has after `ThreadFilter::init` of src/threadFilter.cpp.
use async_profiler.Base.{
  ℕ, zero, suc, ◌+◌, ◌-◌, ◌^◌, ◌≤◌, ◌<◌, ◌≡◌, refl, ◌∙◌, ap, arith, Bool, true, false, ◌&&◌, ◌||◌,
  List, [], ◌∷◌, Option, none, some, ◌==◌, leb, ltb, ◌>>=◌, length, Bool-cases, inl, inr,
}
use async_profiler.Base.Int.{ℤ, pos, negsuc}
use async_profiler.Base.Texts.{Text}
use async_profiler.Base.Lengths.{NumberWithin}
use async_profiler.ThreadFilter.Consuming.{next_ids-Within}
use async_profiler.Os.{Os}
use async_profiler.ThreadFilter.{ThreadFilter, accept, add, bitmap_size}
use async_profiler.ThreadFilter.Members.{AddsOrFaults, add-Adds}
use async_profiler.ThreadFilter.Init.{
  Ids, one, range, range_rounds, next_ids, add_range, add_ids, init_from, init,
}

abbrev up_to : ℤ → ℕ → Bool
up_to (pos to) j = leb j to
up_to (negsuc _) j = false

-- The threads that a token names, and those that a list of tokens does.
abbrev names : Ids → ℕ → Bool
names (one id) j = id == j
names (range id to) j = leb id j && up_to to j

abbrev pub names_any : List Ids → ℕ → Bool
names_any [] j = false
names_any (ids ∷ rest) j = names_any rest j || names ids j

abbrev ends_early : Ids → Bool
ends_early (one id) = true
ends_early (range id (pos to)) = ltb to (2 ^ 31 - 1)
ends_early (range id (negsuc _)) = true

-- No range goes up to the largest `int`.
abbrev pub all_end_early : List Ids → Bool
all_end_early [] = true
all_end_early (ids ∷ rest) = ends_early ids && all_end_early rest

-- The tokens of a text, up to the first that has no positive id; at most a given number of them.
abbrev pub tokens : ℕ → Text → List Ids
tokens zero filter = []
tokens (suc most) filter = elim (next_ids filter) [
  | none ↦ []
  | some (ids, end) ↦ elim end [ [] ↦ ids ∷ [] | _ ∷ rest ↦ ids ∷ tokens most rest ]
]

module _ (os : Os) where
  open os use {State, safe_alloc}

  abbrev pub Grants : Type 0
  Grants = (s : State) (n : ℕ) → ((safe_alloc s n).0 ≡ none) → ⊥

  -- The set has gained exactly the threads of a test.
  abbrev pub Gains : ThreadFilter → (ℕ → Bool) → Option (ThreadFilter × State) → Type 0
  Gains f named none = ⊥
  Gains f named (some (g, s)) = (j : ℕ) → accept g j ≡ (named j || accept f j)

  from_adds :
      (f : ThreadFilter) (id : ℕ) (s : State) (o : Option (ThreadFilter × State))
      → Grants
      → AddsOrFaults os f id s o
      → Gains f (λ j. id == j) o
  from_adds f id s none grants (_, refused) = grants s bitmap_size refused
  from_adds f id s (some (g, s')) grants (adds, _) = adds

  add-Gains :
      (f : ThreadFilter) (id : ℕ) (s : State) → Grants → Gains f (λ j. id == j) (add os f id s)
  add-Gains f id s grants = from_adds f id s (add os f id s) grants (add-Adds os f id s)

  or_assoc : (p q a b c : Bool) → b ≡ (p || a) → c ≡ (q || b) → c ≡ ((q || p) || a)
  or_assoc p q a b c e e' = ground (arith, e, e')

  regain :
      (f g : ThreadFilter) (p q : ℕ → Bool) (o : Option (ThreadFilter × State))
      → ((j : ℕ) → accept g j ≡ (p j || accept f j))
      → Gains g q o
      → Gains f (λ j. q j || p j) o
  regain f g p q none e h = h
  regain f g p q (some (g', s)) e h =
      λ j. or_assoc (p j) (q j) (accept f j) (accept g j) (accept g' j) (e j) (h j)

  bind-Gains :
      (f : ThreadFilter) (p q : ℕ → Bool) (o : Option (ThreadFilter × State))
      (k : ThreadFilter × State → Option (ThreadFilter × State))
      → Gains f p o
      → ((g : ThreadFilter) (s : State) → Gains g q (k (g, s)))
      → Gains f (λ j. q j || p j) (o >>= k)
  bind-Gains f p q none k h step = h
  bind-Gains f p q (some (g, s)) k h step = regain f g p q (k (g, s)) h (step g s)

  weaken :
      (f : ThreadFilter) (p q : ℕ → Bool) (o : Option (ThreadFilter × State))
      → ((j : ℕ) → p j ≡ q j)
      → Gains f p o
      → Gains f q o
  weaken f p q none e h = h
  weaken f p q (some (g, s)) e h = λ j. h j ∙ ap (λ b. b || accept f j) (e j)

  add_range-Gains :
      (left id : ℕ) (f : ThreadFilter) (s : State)
      → Grants
      → id + left ≤ 2 ^ 31 - 1
      → Gains f (λ j. leb id j && ltb j (id + left)) (add_range os left id f s)
  unfolding add_range
  add_range-Gains zero id f s grants h = λ j. ground arith
  add_range-Gains (suc left) id f s grants h =
      let below : (id == 2 ^ 31 - 1) ≡ false = ground arith in
      weaken f (λ j. (leb (id + 1) j && ltb j (id + 1 + left)) || (id == j))
        (λ j. leb id j && ltb j (id + suc left)) (add_range os (suc left) id f s)
        (λ j. ground arith)
        (rw below (
          bind-Gains f (λ j. id == j) (λ j. leb (id + 1) j && ltb j (id + 1 + left)) (add os f id s)
            _ (add-Gains f id s grants)
            (λ g s'. add_range-Gains left (id + 1) g s' grants (omega arith))))

  add_ids-Gains :
      (ids : Ids) (f : ThreadFilter) (s : State)
      → Grants
      → ends_early ids ≡ true
      → Gains f (names ids) (add_ids os ids f s)
  unfolding add_ids range_rounds
  add_ids-Gains (one id) f s grants h = add-Gains f id s grants
  add_ids-Gains (range id (pos to)) f s grants h = elim (Bool-cases (leb id to)) [
    | inl some_ids ↦
        weaken f (λ j. leb id j && ltb j (id + (to + 1 - id))) (names (range id (pos to)))
          (add_range os (to + 1 - id) id f s) (λ j. ground arith)
          (add_range-Gains (to + 1 - id) id f s grants (ground arith))
    | inr no_ids ↦ let over : to + 1 - id ≡ 0 = ground arith in rw over (λ j. ground arith)
  ]
  add_ids-Gains (range id (negsuc n)) f s grants h = λ j. ground arith

  -- What a number of rounds of the loop does, for the induction.
  abbrev Runs : ℕ → Type 0
  Runs fuel =
      (filter : Text) (f : ThreadFilter) (s : State)
      → length filter < fuel
      → all_end_early (tokens fuel filter) ≡ true
      → Gains f (names_any (tokens fuel filter)) (init_from os fuel filter f s)

  after_token :
      (fuel : ℕ) (ids : Ids) (end : Text) (f : ThreadFilter) (s : State)
      → Grants
      → Runs fuel
      → length end ≤ fuel
      → all_end_early (elim end [ [] ↦ ids ∷ [] | _ ∷ rest ↦ ids ∷ tokens fuel rest ]) ≡ true
      → Gains f (names_any (elim end [ [] ↦ ids ∷ [] | _ ∷ rest ↦ ids ∷ tokens fuel rest ])) (
          add_ids os ids f s
          >>= (λ (g, s'). elim end [ [] ↦ some (g, s') | _ ∷ rest ↦ init_from os fuel rest g s' ]))
  after_token fuel ids [] f s grants ih l h =
      bind-Gains f (names ids) (λ _. false) (add_ids os ids f s) _
        (add_ids-Gains ids f s grants (ground arith)) (λ g s' j. refl)
  after_token fuel ids (c ∷ rest) f s grants ih l h =
      bind-Gains f (names ids) (names_any (tokens fuel rest)) (add_ids os ids f s) _
        (add_ids-Gains ids f s grants (ground arith))
        (λ g s'. ih rest g s' (omega arith) (ground arith))

  after_next :
      (fuel : ℕ) (o : Option (Ids × Text)) (f : ThreadFilter) (s : State)
      → Grants
      → Runs fuel
      → NumberWithin fuel o
      → all_end_early (elim o [
        | none ↦ []
        | some (ids, end) ↦ elim end [ [] ↦ ids ∷ [] | _ ∷ rest ↦ ids ∷ tokens fuel rest ]
      ])
        ≡ true
      → Gains f
          (names_any (elim o [
            | none ↦ []
            | some (ids, end) ↦ elim end [ [] ↦ ids ∷ [] | _ ∷ rest ↦ ids ∷ tokens fuel rest ]
          ]))
          (elim o [
            | none ↦ some (f, s)
            | some (ids, end) ↦ add_ids os ids f s >>= (λ (g, s'). elim end [
              | [] ↦ some (g, s')
              | _ ∷ rest ↦ init_from os fuel rest g s'
            ])
          ])
  after_next fuel none f s grants ih l h = λ j. refl
  after_next fuel (some (ids, end)) f s grants ih l h = after_token fuel ids end f s grants ih l h

  init_from-Gains : (fuel : ℕ) → Grants → Runs fuel
  unfolding init_from
  init_from-Gains zero grants = λ filter f s l h. absurd (omega (arith, l))
  init_from-Gains (suc fuel) grants = λ filter f s l h.
      after_next fuel (next_ids filter) f s grants (init_from-Gains fuel grants)
        (next_ids-Within fuel filter (omega (arith, l))) h

  abbrev pub Filters : ThreadFilter → (ℕ → Bool) → Option (ThreadFilter × State) → Type 0
  Filters f named none = ⊥
  Filters f named (some (g, s)) =
      (g.enabled ≡ true) × ((j : ℕ) → accept g j ≡ (named j || accept f j))

  enabled-Filters :
      (f : ThreadFilter) (named : ℕ → Bool) (o : Option (ThreadFilter × State))
      → Gains f named o
      → Filters f named (o >>= (λ (g, s'). some (record g { enabled = true }, s')))
  unfolding accept
  enabled-Filters f named none h = h
  enabled-Filters f named (some (g, s)) h = (refl, h)

  -- On a system that grants every mapping and a text in which no range goes up to the largest int,
  -- `init` ends without a fault, the filter is enabled then, and it accepts the threads that the
  -- tokens of the text name, up to the first without a positive id, and those that it accepted
  -- before.
  pub init-Filters :
      (filter : Text) (f : ThreadFilter) (s : State)
      → Grants
      → all_end_early (tokens (suc (length filter)) filter) ≡ true
      → Filters f (names_any (tokens (suc (length filter)) filter)) (init os (some filter) f s)
  unfolding init
  init-Filters filter f s grants h =
      enabled-Filters f (names_any (tokens (suc (length filter)) filter))
        (init_from os (suc (length filter)) filter f s)
        (init_from-Gains (suc (length filter)) grants filter f s (omega arith) h)
