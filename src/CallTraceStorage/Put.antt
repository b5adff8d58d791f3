-- ===== src/CallTraceStorage/Put.antt =====
-- What `put` of src/callTraceStorage.cpp returns and leaves behind, on every branch.
use async_profiler.Base.{
  ℕ, ◌+◌, ◌-◌, ◌*◌, ◌^◌, ◌≤◌, ◌<◌, ◌≡◌, ◌≢◌, refl, List, ◌∷◌, Option, none, some, ltb, leb, ◌==◌,
  if◌then◌else◌, arith, Bool-cases, Option-cases, inl, inr, true, false, ap, ◌∙◌, sym, subst, ◌⊎◌,
}
use mathlib.Core.Path.{ap₂}
use async_profiler.LinearAllocator.{LinearAllocator}
use async_profiler.Os.{Os}
use async_profiler.CallTraceStorage.{
  CallFrame, calc_hash, CallTrace, CallTraceSample, CallTraceStorage, LongHashTable, Probe, hit,
  vacant, full, initial_capacity, overflow_trace_id, probe_from_hash, used_memory, trace_id,
  claim_slot, set_trace, count_hit, add_sample, bump_sample,
}
use async_profiler.CallTraceStorage.Ops.{
  tables, reserve_table, trace_for, publish, insert, put_at, put, count_overflow,
}
use async_profiler.CallTraceStorage.Probing.{Settles, probe_from_hash-Settles}
use async_profiler.CallTraceStorage.Ids.{IsValid, entry, entry_in, valid-IsSized, capacity_low}

-- The counters of a slot after `put`.
abbrev pub count_once : CallTraceSample → ℕ → CallTraceSample
count_once x counter = if counter == 0 then x else bump_sample x 1 counter

-- What a `put` of a trace with this hash may leave: the id of an entry under the hash, counted once
-- more than its slot was, or the overflow id and one more overflow.
abbrev pub Puts :
    CallTraceStorage → ℕ → ℕ → (State : Type 0) → Option (ℕ × CallTraceStorage × State) → Type 0
Puts st hash counter State none = Unit
Puts st hash counter State (some (id, st', s)) =
    ((id ≡ overflow_trace_id) × (st' ≡ count_overflow st))
    ⊎ ((slot : ℕ) × (x : CallTraceSample) × (slot < st.current.capacity)
        × (entry st' id ≡ some (hash, x))
        × (x.samples ≡ (count_once (st.current.values slot) counter).samples)
        × (x.counter ≡ (count_once (st.current.values slot) counter).counter)
        × (st.current.keys slot ≢ hash → st.current.keys slot ≡ 0))

trace_id_lem :
    (c slot : ℕ)
    → initial_capacity ≤ c
    → c ≤ 2 ^ 30
    → slot < c
    → trace_id c slot + (initial_capacity - 1) ≡ c + slot
unfolding trace_id
trace_id_lem c slot lo hi h = omega arith

module _ (os : Os) (page_mask : ℕ) where
  open os use {State, safe_alloc}

  abbrev pub IsDouble : ℕ → Option LongHashTable → Type 0
  IsDouble c none = Unit
  IsDouble c (some u) = u.capacity ≡ 2 * c

  entry_in-publish :
      (st : CallTraceStorage) (t : LongHashTable) (fresh : Option LongHashTable) (slot : ℕ)
      → slot < t.capacity
      → IsDouble t.capacity fresh
      → entry_in (tables (publish os page_mask st t fresh)) (t.capacity + slot)
        ≡ some (t.keys slot, t.values slot)
  unfolding publish
  entry_in-publish st t none slot h d =
      let back : t.capacity + slot - t.capacity ≡ slot = omega arith in
      let here : leb t.capacity (t.capacity + slot) ≡ true = ground arith in rw (here, back)
  entry_in-publish st t (some u) slot h d =
      let back : t.capacity + slot - t.capacity ≡ slot = omega arith in
      let here : leb t.capacity (t.capacity + slot) ≡ true = ground arith in
      let past : leb u.capacity (t.capacity + slot) ≡ false = ground arith in rw (past, here, back)

  pub reserve_table-IsDouble :
      (t : LongHashTable) (s : State)
      → t.capacity ≤ 2 ^ 30
      → IsDouble t.capacity (reserve_table os page_mask t s).0
  unfolding reserve_table
  reserve_table-IsDouble t s h = ground arith

  -- The table that `insert` leaves for the slot.
  abbrev filled : CallTraceStorage → ℕ → ℕ → ℕ → Option CallTrace → LongHashTable
  filled st slot hash counter trace =
      count_hit (set_trace (claim_slot st.current slot hash) slot trace) slot counter

  filled_slot :
      (st : CallTraceStorage) (slot hash counter : ℕ) (trace : Option CallTrace)
      → let t : LongHashTable = filled st slot hash counter trace in
        let old : CallTraceSample = st.current.values slot in
        (t.capacity ≡ st.current.capacity)
        × (t.keys slot ≡ hash)
        × (t.values slot ≡ count_once (record old { trace = trace }) counter)
  unfolding count_hit add_sample set_trace claim_slot
  filled_slot st slot hash counter trace = ground arith

  entry-publish :
      (st : CallTraceStorage) (a : LinearAllocator) (fresh : Option LongHashTable)
      (slot hash counter : ℕ) (trace : Option CallTrace)
      → IsValid st
      → slot < st.current.capacity
      → IsDouble st.current.capacity fresh
      → entry
          (publish os page_mask
            (record st { allocator = a })
            (filled st slot hash counter trace)
            fresh)
          (trace_id st.current.capacity slot)
        ≡ some (hash, count_once (record (st.current.values slot) { trace = trace }) counter)
  entry-publish st a fresh slot hash counter trace v h d =
      let t : LongHashTable = filled st slot hash counter trace in
      let st₁ : CallTraceStorage = record st { allocator = a } in
      let (same, key, value) = filled_slot st slot hash counter trace in
      let id : trace_id st.current.capacity slot + 65535 ≡ t.capacity + slot =
        trace_id_lem st.current.capacity slot (capacity_low st v) v.small h
        ∙ ap (λ (c : ℕ). c + slot) (sym same) in
      ap (entry_in (tables (publish os page_mask st₁ t fresh))) id
      ∙ entry_in-publish st₁ t fresh slot (subst (λ c. slot < c) (sym same) h)
          (subst (λ c. IsDouble c fresh) (sym same) d)
      ∙ ap₂ (λ x y. some (x, y)) key value

  count_once_counts :
      (x : CallTraceSample) (trace : Option CallTrace) (counter : ℕ)
      → ((count_once (record x { trace = trace }) counter).samples ≡ (count_once x counter).samples)
        × ((count_once (record x { trace = trace }) counter).counter
            ≡ (count_once x counter).counter)
  count_once_counts x trace counter = ground arith

  claim_slot-capacity :
      (t : LongHashTable) (slot hash : ℕ) → (claim_slot t slot hash).capacity ≡ t.capacity
  unfolding claim_slot
  claim_slot-capacity t slot hash = refl

  insert-Puts :
      (fuel : ℕ) (st : CallTraceStorage) (frames : List CallFrame) (hash slot counter : ℕ)
      (s : State)
      → IsValid st
      → slot < st.current.capacity
      → st.current.keys slot ≡ 0
      → Puts st hash counter State (insert os page_mask fuel st frames hash slot counter s)
  unfolding insert
  insert-Puts fuel st frames hash slot counter s v h e =
      let t = claim_slot st.current slot hash in
      let (fresh, s₁) = reserve_table os page_mask t s in
      let same = claim_slot-capacity st.current slot hash in
      let d : IsDouble st.current.capacity fresh =
        subst (λ c. IsDouble c fresh) same
          (reserve_table-IsDouble t s (omega (arith, v.small, same))) in
      elim (Option-cases (trace_for os page_mask fuel st.older st.allocator frames hash s₁)) [
        | inl stop ↦ rw stop tt
        | inr ((trace, a, s₂), go) ↦
            let (samples, counted) = count_once_counts (st.current.values slot) trace counter in
            rw go (
              inr (
                slot,
                count_once (record (st.current.values slot) { trace = trace }) counter,
                h,
                entry-publish st a fresh slot hash counter trace v h d,
                samples,
                counted,
                λ _. e,
              ))
      ]

  count_hit_slot :
      (t : LongHashTable) (slot counter : ℕ)
      → ((count_hit t slot counter).capacity ≡ t.capacity)
        × ((count_hit t slot counter).keys slot ≡ t.keys slot)
        × ((count_hit t slot counter).values slot ≡ count_once (t.values slot) counter)
  unfolding count_hit add_sample
  count_hit_slot t slot counter = ground arith

  entry-hit :
      (st : CallTraceStorage) (slot counter : ℕ)
      → IsValid st
      → slot < st.current.capacity
      → entry
          (record st { current = count_hit st.current slot counter })
          (trace_id st.current.capacity slot)
        ≡ some (st.current.keys slot, count_once (st.current.values slot) counter)
  unfolding count_hit publish
  entry-hit st slot counter v h =
      let t : LongHashTable = count_hit st.current slot counter in
      let (same, key, value) = count_hit_slot st.current slot counter in
      let id : trace_id st.current.capacity slot + 65535 ≡ t.capacity + slot =
        trace_id_lem st.current.capacity slot (capacity_low st v) v.small h
        ∙ ap (λ (c : ℕ). c + slot) (sym same) in
      ap (entry_in (t ∷ st.older)) id
      ∙ entry_in-publish (record st { current = t }) t none slot
          (subst (λ c. slot < c) (sym same) h) tt
      ∙ ap₂ (λ x y. some (x, y)) key value

  put_at-Puts :
      (fuel : ℕ) (st : CallTraceStorage) (frames : List CallFrame) (hash counter : ℕ)
      (r : Option Probe) (s : State)
      → IsValid st
      → Settles st.current hash r
      → Puts st hash counter State (put_at os page_mask fuel st frames hash counter r s)
  unfolding put_at
  put_at-Puts fuel st frames hash counter (some (hit slot)) s v (h, e) = inr (
    slot,
    count_once (st.current.values slot) counter,
    h,
    entry-hit st slot counter v h
        ∙ ap (λ x. some (x, count_once (st.current.values slot) counter)) e,
    refl,
    refl,
    λ ne. absurd (ne e),
  )
  put_at-Puts fuel st frames hash counter (some (vacant slot)) s v (h, e, z) =
      elim (Bool-cases (ltb st.mem_limit (used_memory st))) [
        | inl over ↦ rw over (inl (refl, refl))
        | inr free ↦ rw free (insert-Puts fuel st frames hash slot counter s v h e)
      ]
  put_at-Puts fuel st frames hash counter (some full) s v a = inl (refl, refl)
  put_at-Puts fuel st frames hash counter none s v a = tt

  -- `put` that ends returns the overflow id and counts one more overflow, changing nothing else, or
  -- returns an id that stands for an entry under the trace's hash: it has the counters of a slot of
  -- the current table, with one sample and `counter` added if `counter` is not 0, and the slot was
  -- free if it did not hold the hash before.
  pub put-Puts :
      (fuel : ℕ) (st : CallTraceStorage) (frames : List CallFrame) (counter : ℕ) (s : State)
      → IsValid st
      → Puts st (calc_hash frames) counter State (put os page_mask fuel st frames counter s)
  unfolding put
  put-Puts fuel st frames counter s v =
      let (k, z) = valid-IsSized st v in
      put_at-Puts fuel st frames (calc_hash frames) counter
        (probe_from_hash st.current (calc_hash frames)) s v
        (probe_from_hash-Settles k st.current (calc_hash frames) z)
