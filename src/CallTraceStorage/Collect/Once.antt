-- ===== src/CallTraceStorage/Collect/Once.antt =====
-- Two calls of `collectTraces` (src/callTraceStorage.cpp), one after the other.
use async_profiler.Base.{
  ℕ, zero, suc, ◌+◌, ◌≤◌, ◌<◌, ◌≡◌, refl, false, List, [], ◌∷◌, arith, ◌∙◌, sym, subst, Bool-cases,
  inl, inr, ◌==◌, ==_iff, if◌then◌else◌,
}
use mathlib.Core.Path.{◌≡⟨◌⟩◌, ◌∎}
use async_profiler.CallTraceStorage.{CallTrace, CallTraceStorage, LongHashTable}
use async_profiler.CallTraceStorage.Collect.{
  is_sampled, reset_samples, collect_slots, collect_tables, collect_traces, overflow_entry,
}

-- No slot from `from` on has samples that were not collected.
abbrev IsDrained : LongHashTable → ℕ → Type 0
IsDrained t n = (slot : ℕ) → slot < n → is_sampled t slot ≡ false

reset_samples-drains :
    (t : LongHashTable) (slot : ℕ) → is_sampled (reset_samples t slot) slot ≡ false
unfolding reset_samples
reset_samples-drains t slot = ground arith

step_keeps :
    (t : LongHashTable) (slot other : ℕ)
    → is_sampled t other ≡ false
    → is_sampled (if is_sampled t slot then reset_samples t slot else t) other ≡ false
unfolding reset_samples
step_keeps t slot other h = ground arith

step_drains :
    (t : LongHashTable) (slot : ℕ)
    → is_sampled (if is_sampled t slot then reset_samples t slot else t) slot ≡ false
unfolding reset_samples
step_drains t slot = ground arith

abbrev stepped : LongHashTable → ℕ → LongHashTable
stepped t slot = if is_sampled t slot then reset_samples t slot else t

stepped-IsDrained : (t : LongHashTable) (n : ℕ) → IsDrained t n → IsDrained (stepped t n) (n + 1)
stepped-IsDrained t n d other h = elim (Bool-cases (n == other)) [
  | inl same ↦
      subst (λ j. is_sampled (stepped t n) j ≡ false) ((==_iff n other).0 same) (step_drains t n)
  | inr other_slot ↦ step_keeps t n other (d other (ground arith))
]

collect_slots-IsDrained :
    (left n : ℕ) (t : LongHashTable) (acc : List (ℕ × CallTrace))
    → IsDrained t n
    → IsDrained (collect_slots left n t acc).0 (n + left)
unfolding collect_slots
collect_slots-IsDrained zero n t acc d = λ slot h. d slot (omega arith)
collect_slots-IsDrained (suc left) n t acc d =
    subst (IsDrained (collect_slots (suc left) n t acc).0)
      (n + 1 + left ≡⟨ omega arith ⟩ n + suc left ∎)
      (collect_slots-IsDrained left (n + 1) _ _ (stepped-IsDrained t n d))

stepped-capacity : (t : LongHashTable) (n : ℕ) → (stepped t n).capacity ≡ t.capacity
unfolding reset_samples
stepped-capacity t n = ground arith

collect_slots-capacity :
    (left n : ℕ) (t : LongHashTable) (acc : List (ℕ × CallTrace))
    → (collect_slots left n t acc).0.capacity ≡ t.capacity
unfolding collect_slots
collect_slots-capacity zero n t acc = refl
collect_slots-capacity (suc left) n t acc =
    collect_slots-capacity left (n + 1) _ _ ∙ stepped-capacity t n

-- A drained table gives nothing, and stays as it is.
collect_slots_idle :
    (left n m : ℕ) (t : LongHashTable) (acc : List (ℕ × CallTrace))
    → n + left ≤ m
    → IsDrained t m
    → collect_slots left n t acc ≡ (t, acc)
unfolding collect_slots
collect_slots_idle zero n m t acc h d = refl
collect_slots_idle (suc left) n m t acc h d =
    rw (d n (omega arith)) (collect_slots_idle left (n + 1) m t acc (omega arith) d)

abbrev AllDrained : List LongHashTable → Type 0
AllDrained [] = Unit
AllDrained (t ∷ ts) = IsDrained t t.capacity × AllDrained ts

collected-IsDrained :
    (t : LongHashTable) (acc : List (ℕ × CallTrace))
    → let u : LongHashTable = (collect_slots t.capacity 0 t acc).0 in IsDrained u u.capacity
collected-IsDrained t acc =
    subst (IsDrained (collect_slots t.capacity 0 t acc).0)
      (0 + t.capacity
        ≡⟨ omega arith ⟩ t.capacity
        ≡⟨ sym (collect_slots-capacity t.capacity 0 t acc) ⟩ _ ∎)
      (collect_slots-IsDrained t.capacity 0 t acc (λ slot h. absurd (omega arith)))

collect_tables-AllDrained :
    (ts : List LongHashTable) (acc : List (ℕ × CallTrace)) → AllDrained (collect_tables ts acc).0
unfolding collect_tables
collect_tables-AllDrained [] acc = tt
collect_tables-AllDrained (t ∷ ts) acc = (collected-IsDrained t acc, collect_tables-AllDrained ts _)

collect_tables_idle :
    (ts : List LongHashTable) (acc : List (ℕ × CallTrace))
    → AllDrained ts
    → collect_tables ts acc ≡ (ts, acc)
unfolding collect_tables
collect_tables_idle [] acc d = refl
collect_tables_idle (t ∷ ts) acc (d, ds) = rw (
  collect_slots_idle t.capacity 0 t.capacity t acc (omega arith) d,
  collect_tables_idle ts acc ds,
)

-- After one `collectTraces`, another one with no `put` between reports no trace again (only the
-- overflow entry, if any trace was dropped) and changes nothing.
pub collect_traces_once :
    (overflow_trace : CallTrace) (st : CallTraceStorage)
    → let st' : CallTraceStorage = (collect_traces overflow_trace st).0 in
      collect_traces overflow_trace st' ≡ (st', overflow_entry overflow_trace st.overflow [])
unfolding collect_traces
collect_traces_once overflow_trace st =
    let (t, acc) = collect_slots st.current.capacity 0 st.current [] in
    let ts = (collect_tables st.older acc).0 in
    rw (
      collect_slots_idle t.capacity 0 t.capacity t [] (omega arith)
          (collected-IsDrained st.current []),
      collect_tables_idle ts [] (collect_tables-AllDrained st.older acc),
    )
