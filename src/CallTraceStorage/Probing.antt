-- ===== src/CallTraceStorage/Probing.antt =====
-- The probing loop of src/callTraceStorage.cpp ("improved version of linear probing"): the slots
-- that it visits and the answers that it gives.
mod Triangular
use async_profiler.Base.{
  ℕ, zero, suc, ◌+◌, ◌-◌, ◌*◌, ◌%◌, ◌^◌, ◌≤◌, ◌<◌, ◌≡◌, ◌≢◌, refl, Bool, true, false, Option, none,
  some, arith, bit_and, ◌==◌, if◌then◌else◌, leb, ◌⊎◌, inl, inr, Bool-cases, sym, ◌∙◌, ap, subst,
  ==_iff,
}
use async_profiler.Base.Bits.{bit_and-mask, two-pow_pos}
use async_profiler.CallTraceStorage.{
  LongHashTable, Probe, hit, vacant, full, next_slot, probe, probe_from_hash, claim_slot, write,
}
use native.Mathlib.Nat.{mod-eq_of_lt, mod-lt, mod-add-mod, add-zero, add-mod-mod, add-mod_right}
use native.Mathlib.Numerals.{add-one}
use Triangular.{tri, tri_reaches}

-- The capacity is a power of two that leaves room in 32 bits.
pub record IsSized (t : LongHashTable) (k : ℕ) : Type 0 where
  pub power : t.capacity ≡ 2 ^ k
  pub small : t.capacity ≤ 2 ^ 30

next_slot_lem :
    (k slot step : ℕ)
    → 2 ^ k ≤ 2 ^ 30
    → slot < 2 ^ k
    → step ≤ 2 ^ k
    → next_slot (2 ^ k) slot step ≡ (slot + step) % 2 ^ k
unfolding next_slot
next_slot_lem k slot step h p q =
    bit_and-mask k ((slot + step) % 2 ^ 32) ∙ ap (λ (x : ℕ). x % 2 ^ k) (mod-eq_of_lt (omega arith))

-- The slot that the loop looks at after `n` steps.
slot_at : ℕ → ℕ → ℕ → ℕ
slot_at c start zero = start
slot_at c start (suc n) = next_slot c (slot_at c start n) (n + 1)

slot_at-tri :
    (k start n : ℕ)
    → 2 ^ k ≤ 2 ^ 30
    → start < 2 ^ k
    → n < 2 ^ k
    → slot_at (2 ^ k) start n ≡ (start + tri n) % 2 ^ k
unfolding slot_at tri
slot_at-tri k start zero h p q = sym (ap (λ (x : ℕ). x % 2 ^ k) (add-zero start) ∙ mod-eq_of_lt p)
slot_at-tri k start (suc n) h p q =
    let before = slot_at-tri k start n h p (omega arith) in
    rw before (
      next_slot_lem k ((start + tri n) % 2 ^ k) (n + 1) h (mod-lt _ (two-pow_pos k)) (omega arith)
      ∙ mod-add-mod (start + tri n) (2 ^ k) (n + 1)
      ∙ ap (λ (x : ℕ). x % 2 ^ k) (omega arith))

shift_back :
    (m start s x : ℕ) → start < m → s < m → x % m ≡ (s + m - start) % m → (start + x) % m ≡ s
shift_back m start s x p q e =
    sym (add-mod-mod start x m)
    ∙ ap (λ (y : ℕ). (start + y) % m) e
    ∙ add-mod-mod start (s + m - start) m
    ∙ ap (λ (y : ℕ). y % m) (omega arith)
    ∙ add-mod_right s m
    ∙ mod-eq_of_lt q

-- Within `2 ^ k` steps every slot is visited.
slot_at_reaches :
    (k start s : ℕ)
    → 2 ^ k ≤ 2 ^ 30
    → start < 2 ^ k
    → s < 2 ^ k
    → (i : ℕ) × (i < 2 ^ k) × (slot_at (2 ^ k) start i ≡ s)
slot_at_reaches k start s h p q =
    let (i, below, e) = tri_reaches k ((s + 2 ^ k - start) % 2 ^ k) (mod-lt _ (two-pow_pos k)) in
    (i, below, slot_at-tri k start i h p below ∙ shift_back (2 ^ k) start s (tri i) p q e)

slot_at-lt :
    (k start n : ℕ) → 2 ^ k ≤ 2 ^ 30 → start < 2 ^ k → n < 2 ^ k → slot_at (2 ^ k) start n < 2 ^ k
slot_at-lt k start n h p q = rw (slot_at-tri k start n h p q) (mod-lt _ (two-pow_pos k))

next-slot_at : (c start n : ℕ) → slot_at c start (n + 1) ≡ next_slot c (slot_at c start n) (n + 1)
unfolding slot_at
next-slot_at c start n =
    subst (λ x. slot_at c start x ≡ next_slot c (slot_at c start n) (n + 1)) (sym (add-one n)) refl

-- What the answer of a probe says about the keys at the visited slots.
abbrev Answers : (start hash : ℕ) → LongHashTable → ℕ → Option Probe → Type 0
Answers start hash t n (some (hit s)) = (t.keys s ≡ hash) × (s < t.capacity)
Answers start hash t n (some (vacant s)) = (t.keys s ≡ 0) × (s < t.capacity) × (hash ≢ 0)
Answers start hash t n (some full) =
    (i : ℕ)
    → n ≤ i
    → i < t.capacity
    → (t.keys (slot_at t.capacity start i) ≢ hash) × (t.keys (slot_at t.capacity start i) ≢ 0)
Answers start hash t n none = ⊥

not_yet :
    (start hash n i : ℕ) (t : LongHashTable)
    → (t.keys (slot_at t.capacity start n) == hash) ≡ false
    → (t.keys (slot_at t.capacity start n) == 0) ≡ false
    → ((n + 1 ≤ i)
        → (t.keys (slot_at t.capacity start i) ≢ hash) × (t.keys (slot_at t.capacity start i) ≢ 0))
    → n ≤ i
    → (t.keys (slot_at t.capacity start i) ≢ hash) × (t.keys (slot_at t.capacity start i) ≢ 0)
not_yet start hash n i t h z later le = elim (Bool-cases (n == i)) [
  | inl same ↦
      let e : n ≡ i = (==_iff n i).0 same in
      subst
        (λ j.
          (t.keys (slot_at t.capacity start j) ≢ hash) × (t.keys (slot_at t.capacity start j) ≢ 0))
        e ((λ p. ground arith), (λ p. ground arith))
  | inr other ↦ later (ground arith)
]

answer_before :
    (start hash n : ℕ) (t : LongHashTable) (r : Option Probe)
    → (t.keys (slot_at t.capacity start n) == hash) ≡ false
    → (t.keys (slot_at t.capacity start n) == 0) ≡ false
    → Answers start hash t (n + 1) r
    → Answers start hash t n r
answer_before start hash n t (some (hit s)) h z a = a
answer_before start hash n t (some (vacant s)) h z a = a
answer_before start hash n t (some full) h z a =
    λ i le lt. not_yet start hash n i t h z (λ g. a i g lt) le
answer_before start hash n t none h z a = a

probe-Answers :
    (k fuel : ℕ) (t : LongHashTable) (hash start n : ℕ)
    → IsSized t k
    → start < t.capacity
    → n < t.capacity
    → t.capacity ≤ n + fuel
    → Answers start hash t n (probe fuel t hash (slot_at t.capacity start n) n)
unfolding probe
probe-Answers k zero t hash start n z p q f = absurd (omega arith)
probe-Answers k (suc fuel) t hash start n z p q f =
    let slot = slot_at t.capacity start n in
    let low : slot < t.capacity =
      subst (λ c. slot_at c start n < c) (sym z.power)
        (slot_at-lt k start n (omega (arith, z.power, z.small)) (omega (arith, z.power))
          (omega (arith, z.power))) in
    elim (Bool-cases (t.keys slot == hash)) [
      | inl h ↦ rw h ((==_iff _ _).0 h, low)
      | inr h ↦ elim (Bool-cases (t.keys slot == 0)) [
        | inl e ↦ rw (h, e) ((==_iff _ _).0 e, low, ground arith)
        | inr e ↦ elim (Bool-cases (leb t.capacity (n + 1))) [
          | inl last ↦
              rw (h, e, last)
                (λ i le lt. not_yet start hash n i t h e (λ g. absurd (ground arith)) le)
          | inr more ↦
              rw (h, e, more)
                (answer_before start hash n t _ h e (
                  subst (λ x. Answers start hash t (n + 1) (probe fuel t hash x (n + 1)))
                    (next-slot_at t.capacity start n)
                    (probe-Answers k fuel t hash start (n + 1) z p (ground arith) (omega arith))))
        ]
      ]
    ]

home : LongHashTable → ℕ → ℕ
home t hash = bit_and hash (t.capacity - 1)

home-lt : (k : ℕ) (t : LongHashTable) (hash : ℕ) → IsSized t k → home t hash < t.capacity
unfolding home
home-lt k t hash z = rw (z.power, bit_and-mask k hash) (mod-lt hash (two-pow_pos k))

probe_from_hash-Answers :
    (k : ℕ) (t : LongHashTable) (hash : ℕ)
    → IsSized t k
    → Answers (home t hash) hash t 0 (probe_from_hash t hash)
unfolding probe_from_hash home slot_at
probe_from_hash-Answers k t hash z =
    probe-Answers k t.capacity t hash (home t hash) 0 z (home-lt k t hash z)
      (omega (arith, z.power, two-pow_pos k)) (omega arith)

-- A slot that the loop of `put` and `findCallTrace` settles on is inside the arrays, and holds the
-- hash (a hit) or nothing (a vacant slot); the loop always ends within `capacity` rounds.
abbrev pub Settles : LongHashTable → ℕ → Option Probe → Type 0
Settles t hash (some (hit s)) = (s < t.capacity) × (t.keys s ≡ hash)
Settles t hash (some (vacant s)) = (s < t.capacity) × (t.keys s ≡ 0) × (hash ≢ 0)
Settles t hash (some full) = (s : ℕ) → s < t.capacity → (t.keys s ≢ hash) × (t.keys s ≢ 0)
Settles t hash none = ⊥

settle :
    (k : ℕ) (t : LongHashTable) (hash : ℕ) (r : Option Probe)
    → IsSized t k
    → Answers (home t hash) hash t 0 r
    → Settles t hash r
settle k t hash (some (hit s)) z a = (a.1, a.0)
settle k t hash (some (vacant s)) z a = (a.1, a.0, a.2)
settle k t hash (some full) z a = λ s lt.
    let e = z.power in
    let (i, below, at) =
      slot_at_reaches k (home t hash) s (omega (arith, z.small)) (omega (arith, home-lt k t hash z))
        (omega arith) in
    subst (λ x. (t.keys x ≢ hash) × (t.keys x ≢ 0))
      (subst (λ c. slot_at c (home t hash) i ≡ s) (sym e) at) (a i (omega arith) (omega arith))
settle k t hash none z a = absurd a

-- In a table whose capacity is a power of two and at most 2 ^ 30, the probing loop ends within
-- `capacity` rounds, on a slot inside the arrays: the one that holds the hash, or a free one. It gives
-- up (`full`) only when no slot of the table is free and none holds the hash.
pub probe_from_hash-Settles :
    (k : ℕ) (t : LongHashTable) (hash : ℕ) → IsSized t k → Settles t hash (probe_from_hash t hash)
probe_from_hash-Settles k t hash z =
    settle k t hash (probe_from_hash t hash) z (probe_from_hash-Answers k t hash z)
