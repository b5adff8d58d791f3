-- ===== src/CallTraceStorage/Ids.antt =====
-- The ids of src/callTraceStorage.cpp: which table and slot an id stands for, and `add` on an id.
use async_profiler.Base.{
  ℕ, suc, ◌+◌, ◌-◌, ◌*◌, ◌%◌, ◌^◌, ◌≤◌, ◌<◌, ◌≡◌, ◌≢◌, refl, List, [], ◌∷◌, Option, none, some, ltb,
  leb, if◌then◌else◌, arith, Bool-cases, inl, inr, false, lt→ltb, ltb→lt, ap, ◌∙◌,
}
use async_profiler.Base.Bits.{two-pow-suc}
use native.Mathlib.Nat.{mod-eq_of_lt}
use async_profiler.CallTraceStorage.{
  CallTraceSample, CallTraceStorage, LongHashTable, initial_capacity, u32_mod, capacity,
  bump_sample,
}
use async_profiler.CallTraceStorage.Ops.{tables, add_in, add, with_tables}
use async_profiler.CallTraceStorage.Probing.{IsSized}

-- Each table is twice as large as the one before it; the first has the initial capacity.
abbrev pub IsChain : LongHashTable → List LongHashTable → Type 0
IsChain t [] = t.capacity ≡ initial_capacity
IsChain t (u ∷ us) = (t.capacity ≡ 2 * u.capacity) × IsChain u us

pub record IsValid (st : CallTraceStorage) : Type 0 where
  pub chain : IsChain st.current st.older
  pub small : st.current.capacity ≤ 2 ^ 30

chain_power :
    (t : LongHashTable) (ts : List LongHashTable)
    → IsChain t ts
    → (k : ℕ) × (t.capacity ≡ 2 ^ k) × (initial_capacity ≤ t.capacity)
chain_power t [] c = (16, c, omega arith)
chain_power t (u ∷ us) (e, c) =
    let (k, p, low) = chain_power u us c in (suc k, omega (arith, two-pow-suc k), omega arith)

pub valid-IsSized : (st : CallTraceStorage) → IsValid st → (k : ℕ) × IsSized st.current k
valid-IsSized st v =
    let (k, p, low) = chain_power st.current st.older v.chain in
    (k, record { power = p; small = v.small })

pub capacity_low : (st : CallTraceStorage) → IsValid st → initial_capacity ≤ st.current.capacity
capacity_low st v = (chain_power st.current st.older v.chain).2

-- The key and the counters that an id stands for: those of the slot `id - capacity` of the newest
-- table whose capacity does not exceed it (the id counted from the initial capacity).
abbrev pub entry_in : List LongHashTable → ℕ → Option (ℕ × CallTraceSample)
entry_in [] id = none
entry_in (t ∷ ts) id =
    if leb t.capacity id
    then some (t.keys (id - t.capacity), t.values (id - t.capacity))
    else entry_in ts id

abbrev pub entry : CallTraceStorage → ℕ → Option (ℕ × CallTraceSample)
entry st id = entry_in (tables st) (id + (initial_capacity - 1))

abbrev pub bump_entry : ℕ → ℕ → Option (ℕ × CallTraceSample) → Option (ℕ × CallTraceSample)
bump_entry n c none = none
bump_entry n c (some (h, x)) = some (h, bump_sample x n c)

entry_in-add_in_self :
    (ts : List LongHashTable) (id n c : ℕ)
    → entry_in (add_in ts id n c) id ≡ bump_entry n c (entry_in ts id)
unfolding add_in
entry_in-add_in_self [] id n c = refl
entry_in-add_in_self (t ∷ ts) id n c = ground (arith, entry_in-add_in_self ts id n c)

entry_in-add_in_ne :
    (ts : List LongHashTable) (id other n c : ℕ)
    → id ≢ other
    → entry_in (add_in ts id n c) other ≡ entry_in ts other
unfolding add_in
entry_in-add_in_ne [] id other n c h = refl
entry_in-add_in_ne (t ∷ ts) id other n c h = ground (arith, entry_in-add_in_ne ts id other n c h)

tables-with_tables :
    (st : CallTraceStorage) (id n c : ℕ)
    → tables (with_tables st (add_in (tables st) id n c)) ≡ add_in (tables st) id n c
unfolding add_in
tables-with_tables st id n c = ground arith

capacity-le : (st : CallTraceStorage) → IsValid st → capacity st < 2 ^ 31
unfolding capacity
capacity-le st v = omega (arith, v.small, capacity_low st v)

-- An id within the capacity is looked up without wrapping.
tables-add :
    (st : CallTraceStorage) (id n c : ℕ)
    → IsValid st
    → id ≤ capacity st
    → tables (add st id n c) ≡ add_in (tables st) (id + (initial_capacity - 1)) n c
unfolding add
tables-add st id n c v h =
    let wide : (id + 65535) % u32_mod ≡ id + 65535 =
      mod-eq_of_lt (omega (arith, capacity-le st v)) in
    let within : ltb (capacity st) id ≡ false = ground arith in
    rw (within, wide) (tables-with_tables st (id + 65535) n c)

add_beyond : (st : CallTraceStorage) (id n c : ℕ) → capacity st < id → add st id n c ≡ st
unfolding add
add_beyond st id n c h = rw (lt→ltb (capacity st) id h)

-- `add` on an id within the capacity adds to the counters of that id's slot, and changes what no
-- other id stands for; on any larger id it does nothing.
pub entry-add :
    (st : CallTraceStorage) (id other n c : ℕ)
    → IsValid st
    → (id ≤ capacity st → entry (add st id n c) id ≡ bump_entry n c (entry st id))
      × (id ≢ other → entry (add st id n c) other ≡ entry st other)
      × (capacity st < id → add st id n c ≡ st)
entry-add st id other n c v = (
  λ h.
      ap (λ ts. entry_in ts (id + 65535)) (tables-add st id n c v h)
      ∙ entry_in-add_in_self (tables st) (id + 65535) n c,
  λ ne. elim (Bool-cases (ltb (capacity st) id)) [
    | inl big ↦ rw (add_beyond st id n c (ltb→lt _ _ big))
    | inr within ↦
        ap (λ ts. entry_in ts (other + 65535)) (tables-add st id n c v (ground arith))
        ∙ entry_in-add_in_ne (tables st) (id + 65535) (other + 65535) n c (λ e. ne (omega arith))
  ],
  add_beyond st id n c,
)
