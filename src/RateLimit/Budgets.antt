-- ===== src/RateLimit/Budgets.antt =====
-- How many events src/rateLimit.cpp lets through, and which category an event type counts against.
use async_profiler.Base.{
  ℕ, zero, suc, ◌+◌, ◌*◌, ◌≤◌, ◌<◌, ◌≡◌, ◌≢◌, refl, Bool, true, false, arith, min, ap, ◌∙◌, ◌-◌,
  sym, subst, Bool-cases, inl, inr, ==_iff, if◌then◌else◌, ◌==◌, ◌^◌,
}
use async_profiler.Base.Int.{ℤ, pos, ◌+ℤ◌, ◌-ℤ◌, ◌≤ℤ◌, pos_part, ltb_ℤ}
use mathlib.Core.Bool.{false≢true}
use async_profiler.Base.Bits.{zero-bit_and}
use async_profiler.RateLimit.{
  EventType, perf_sample, execution_sample, signal_sample, wall_clock_sample, native_lock_sample,
  malloc_sample, instrumented_method, method_trace, alloc_sample, alloc_outside_tlab, live_object,
  lock_sample, park_sample, profiling_window, span, user_event, event_to_category, ec_categories,
  Budget, RateLimit, refilled, allow_category, is_enabled, refill, refill_from, refill_one, ec_cpu,
  ec_alloc, ec_lock, ec_wall, ec_nativemem, ec_nativelock, ec_trace, ec_span,
}

-- The table that the bit map stands for; 15 is the category that is never enabled.
abbrev pub category_table : EventType → ℕ
category_table perf_sample = ec_cpu
category_table execution_sample = ec_cpu
category_table instrumented_method = ec_cpu
category_table wall_clock_sample = ec_wall
category_table native_lock_sample = ec_nativelock
category_table malloc_sample = ec_nativemem
category_table method_trace = ec_trace
category_table alloc_sample = ec_alloc
category_table alloc_outside_tlab = ec_alloc
category_table lock_sample = ec_lock
category_table park_sample = ec_lock
category_table span = ec_span
category_table signal_sample = 15
category_table live_object = 15
category_table profiling_window = 15
category_table user_event = 15

-- For each event type the packed 64-bit map yields the category of the table; the types that no
-- entry maps (signal samples, live objects, profiling windows, user events) yield 15.
pub event_to_category_lem : (type : EventType) → event_to_category type ≡ category_table type
unfolding event_to_category
event_to_category_lem perf_sample = refl
event_to_category_lem execution_sample = refl
event_to_category_lem _ = refl

-- A refilled budget is at least the limit and at most twice the limit.
pub refilled_bounds :
    (b : Budget)
    → pos 0 ≤ℤ b.limit
    → (b.limit ≤ℤ (refilled b).budget) × ((refilled b).budget ≤ℤ b.limit +ℤ b.limit)
unfolding refilled ◌+ℤ◌
refilled_bounds b h = ground arith

-- `n` calls of `allow` for one category: how many were let through.
unfoldable pub allowed : ℕ → RateLimit → ℕ → RateLimit × ℕ
allowed zero r category = (r, 0)
allowed (suc n) r category =
    let (r', ok) = allow_category r category in
    let (r'', m) = allowed n r' category in (r'', if ok then m + 1 else m)

allow_category-enabled :
    (r : RateLimit) (category : ℕ)
    → is_enabled r category ≡ true
    → let r' : RateLimit = (allow_category r category).0 in
      (is_enabled r' category ≡ true)
      × ((r'.budgets category).budget ≡ (r.budgets category).budget -ℤ pos 1)
      × ((allow_category r category).1 ≡ ltb_ℤ (pos 0) (r.budgets category).budget)
unfolding allow_category
allow_category-enabled r category h = ground arith

one_less : (b : ℤ) → pos_part (b -ℤ pos 1) ≡ pos_part b - 1
unfolding ◌-ℤ◌
one_less b = ground arith

count_step :
    (n x : ℕ) (b : ℤ) (ok : Bool)
    → x ≡ min n (pos_part b - 1)
    → ok ≡ ltb_ℤ (pos 0) b
    → (if ok then x + 1 else x) ≡ min (suc n) (pos_part b)
count_step n x b ok e h = ground arith

-- Of `n` events of an enabled category, as many pass as its budget had left, and all of them if it
-- had more than that.
allowed-budget :
    (n : ℕ) (r : RateLimit) (category : ℕ)
    → is_enabled r category ≡ true
    → (allowed n r category).1 ≡ min n (pos_part (r.budgets category).budget)
unfolding allowed
allowed-budget zero r category h = ground arith
allowed-budget (suc n) r category h =
    let (on, left, ok) = allow_category-enabled r category h in
    let r' = (allow_category r category).0 in
    let rest = allowed-budget n r' category on in
    count_step n (allowed n r' category).1 (r.budgets category).budget (allow_category r category).1
      (rest ∙ ap (λ b. min n (pos_part b)) left ∙ ap (min n) (one_less (r.budgets category).budget))
      ok

-- A category that is not enabled lets every event through, and costs nothing.
allowed_disabled :
    (n : ℕ) (r : RateLimit) (category : ℕ)
    → is_enabled r category ≡ false
    → allowed n r category ≡ (r, n)
unfolding allowed allow_category
allowed_disabled zero r category h = refl
allowed_disabled (suc n) r category h =
    rw (h, allowed_disabled n r category h) (ap (λ (m : ℕ). (r, m)) (omega arith))

module _ (r : RateLimit) (c i : ℕ) where
  refill_one-mask : (refill_one r i).enabled_categories ≡ r.enabled_categories
  unfolding refill_one
  refill_one-mask = ground arith

  refill_one_other : i ≢ c → (refill_one r i).budgets c ≡ r.budgets c
  unfolding refill_one
  refill_one_other h = ground arith

  refill_one_self :
      i ≡ c → is_enabled r c ≡ true → (refill_one r i).budgets c ≡ refilled (r.budgets c)
  unfolding refill_one
  refill_one_self h e = rw h (rw e (ground arith))

refill_from-mask :
    (left i : ℕ) (r : RateLimit) → (refill_from left i r).enabled_categories ≡ r.enabled_categories
unfolding refill_from
refill_from-mask zero i r = refl
refill_from-mask (suc left) i r =
    refill_from-mask left (i + 1) (refill_one r i) ∙ refill_one-mask r 0 i

refill_from_below :
    (left i : ℕ) (r : RateLimit) (c : ℕ) → c < i → (refill_from left i r).budgets c ≡ r.budgets c
unfolding refill_from
refill_from_below zero i r c h = refl
refill_from_below (suc left) i r c h =
    refill_from_below left (i + 1) (refill_one r i) c (omega arith)
    ∙ refill_one_other r c i (λ e. absurd (omega arith))

enabled_by_mask :
    (r q : RateLimit) (c : ℕ)
    → q.enabled_categories ≡ r.enabled_categories
    → is_enabled r c ≡ true
    → is_enabled q c ≡ true
enabled_by_mask r q c e h = rw e h

refill_from_self :
    (left i : ℕ) (r : RateLimit) (c : ℕ)
    → i ≤ c
    → c < i + left
    → is_enabled r c ≡ true
    → (refill_from left i r).budgets c ≡ refilled (r.budgets c)
unfolding refill_from
refill_from_self zero i r c h l e = absurd (omega arith)
refill_from_self (suc left) i r c h l e = elim (Bool-cases (i == c)) [
  | inl same ↦
      let same' : i ≡ c = (==_iff i c).0 same in
      refill_from_below left (i + 1) (refill_one r i) c (omega arith)
      ∙ refill_one_self r c i same' e
  | inr other ↦
      let apart : i ≢ c = λ p. ground arith in
      refill_from_self left (i + 1) (refill_one r i) c (ground arith) (omega arith)
        (enabled_by_mask r (refill_one r i) c (refill_one-mask r 0 i) e)
      ∙ ap refilled (refill_one_other r c i apart)
]

bit_and_none : (c : ℕ) (r : RateLimit) → r.enabled_categories ≡ 0 → is_enabled r c ≡ false
bit_and_none c r e = rw (e, zero-bit_and (2 ^ c))

refill_self :
    (r : RateLimit) (c : ℕ)
    → c < ec_categories
    → is_enabled r c ≡ true
    → ((refill r).budgets c ≡ refilled (r.budgets c)) × (is_enabled (refill r) c ≡ true)
unfolding refill
refill_self r c h e = elim (Bool-cases (r.enabled_categories == 0)) [
  | inl off ↦ absurd (false≢true (sym (bit_and_none c r ((==_iff _ _).0 off)) ∙ e))
  | inr on ↦ rw on (
    refill_from_self ec_categories 0 r c (omega arith) h e,
    enabled_by_mask r (refill_from ec_categories 0 r) c (refill_from-mask ec_categories 0 r) e,
  )
]

within_twice :
    (n limit passed : ℕ) (x l : ℤ)
    → l ≡ pos limit
    → l ≤ℤ x
    → x ≤ℤ l +ℤ l
    → passed ≡ min n (pos_part x)
    → (min n limit ≤ passed) × (passed ≤ 2 * limit) × (passed ≤ n)
unfolding ◌+ℤ◌
within_twice n limit passed x l e low high p = ground arith

-- After a refill an enabled category with limit `limit` (not negative) lets at least the first
-- `limit` of any number of events through, and at most twice the limit.
pub allowed-refill :
    (n limit : ℕ) (r : RateLimit) (category : ℕ)
    → category < ec_categories
    → is_enabled r category ≡ true
    → (r.budgets category).limit ≡ pos limit
    → let passed : ℕ = (allowed n (refill r) category).1 in
      (min n limit ≤ passed) × (passed ≤ 2 * limit) × (passed ≤ n)
allowed-refill n limit r category h e l =
    let (b, on) = refill_self r category h e in
    let (low, high) =
      refilled_bounds (r.budgets category) (subst (λ x. pos 0 ≤ℤ x) (sym l) (omega arith)) in
    let passed = allowed-budget n (refill r) category on in
    within_twice n limit _ (refilled (r.budgets category)).budget (r.budgets category).limit l low
      high (passed ∙ ap (λ (y : Budget). min n (pos_part y.budget)) b)
