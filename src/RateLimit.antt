-- ===== src/RateLimit.antt =====
-- src/rateLimit.cpp and src/rateLimit.h: a budget of events for each category of events.
-- `long` values are integers; the limits are below 2 ^ 31, so that nothing wraps.
pub mod Budgets
mod Tests
use async_profiler.Base.{
  ℕ, zero, suc, ◌+◌, ◌-◌, ◌*◌, ◌/◌, ◌%◌, ◌^◌, Bool, true, false, not, List, [], ◌∷◌, if◌then◌else◌,
  ltb, ◌==◌, bit_and, bit_or, bit_xor,
}
use async_profiler.Base.Int.{ℤ, pos, negsuc, ◌+ℤ◌, ◌-ℤ◌, ltb_ℤ}

-- enum EventCategory, by number.
abbrev pub ec_cpu : ℕ
ec_cpu = 0

abbrev pub ec_alloc : ℕ
ec_alloc = 1

abbrev pub ec_lock : ℕ
ec_lock = 2

abbrev pub ec_wall : ℕ
ec_wall = 3

abbrev pub ec_nativemem : ℕ
ec_nativemem = 4

abbrev pub ec_nativelock : ℕ
ec_nativelock = 5

abbrev pub ec_trace : ℕ
ec_trace = 6

abbrev pub ec_span : ℕ
ec_span = 7

abbrev pub ec_categories : ℕ
ec_categories = 8

-- enum EventType, in its order.
pub data EventType : Type 0 where
  perf_sample execution_sample signal_sample wall_clock_sample native_lock_sample : EventType
  malloc_sample instrumented_method method_trace alloc_sample alloc_outside_tlab : EventType
  live_object lock_sample park_sample profiling_window span user_event : EventType

unfoldable pub number : EventType → ℕ
number perf_sample = 0
number execution_sample = 1
number signal_sample = 2
number wall_clock_sample = 3
number native_lock_sample = 4
number malloc_sample = 5
number instrumented_method = 6
number method_trace = 7
number alloc_sample = 8
number alloc_outside_tlab = 9
number live_object = 10
number lock_sample = 11
number park_sample = 12
number profiling_window = 13
number span = 14
number user_event = 15

-- MAP_EVENT(TYPE, CATEGORY)
unfoldable pub map_event : EventType → ℕ → ℕ
unfolding number
map_event type category = bit_xor category 15 * 2 ^ (number type * 4) % 2 ^ 64

-- The whole map, inverted.
unfoldable pub event_to_category_map : ℕ
unfolding map_event
event_to_category_map =
    2 ^ 64
    - 1
    - bit_or (map_event perf_sample ec_cpu) (
        bit_or (map_event execution_sample ec_cpu) (
          bit_or (map_event wall_clock_sample ec_wall) (
            bit_or (map_event native_lock_sample ec_nativelock) (
              bit_or (map_event malloc_sample ec_nativemem) (
                bit_or (map_event instrumented_method ec_cpu) (
                  bit_or (map_event method_trace ec_trace) (
                    bit_or (map_event alloc_sample ec_alloc) (
                      bit_or (map_event alloc_outside_tlab ec_alloc) (
                        bit_or (map_event lock_sample ec_lock)
                          (bit_or (map_event park_sample ec_lock) (map_event span ec_span)))))))))))

-- EVENT_TO_CATEGORY(TYPE)
unfoldable pub event_to_category : EventType → ℕ
unfolding event_to_category_map number
event_to_category type = bit_and (event_to_category_map / 2 ^ (number type * 4)) 15

pub record Budget : Type 0 where
  pub budget : ℤ
  pub limit : ℤ

pub record RateLimit : Type 0 where
  pub budgets : ℕ → Budget
  pub enabled_categories : ℕ

abbrev pub is_enabled : RateLimit → ℕ → Bool
is_enabled r category = not (bit_and r.enabled_categories (2 ^ category) == 0)

abbrev pub set_budget : (ℕ → Budget) → ℕ → Budget → ℕ → Budget
set_budget f i b j = if i == j then b else f j

-- The loop of `enable` over the categories, from `i` on: budgets and the mask so far.
unfoldable pub enable_from : ℕ → ℕ → (ℕ → ℤ) → (ℕ → Budget) → ℕ → (ℕ → Budget) × ℕ
enable_from zero i rate_limit budgets mask = (budgets, mask)
enable_from (suc left) i rate_limit budgets mask =
    let off = ltb_ℤ (rate_limit i) (pos 0) in
    let b : Budget = record { budget = rate_limit i; limit = rate_limit i } in
    enable_from left (i + 1) rate_limit (if off then budgets else set_budget budgets i b)
      (if off then mask else bit_or mask (2 ^ i))

unfoldable pub enable : RateLimit → (ℕ → ℤ) → RateLimit
unfolding enable_from
enable r rate_limit =
    let (budgets, mask) = enable_from ec_categories 0 rate_limit r.budgets 0 in
    record { budgets = budgets; enabled_categories = mask }

unfoldable pub disable : RateLimit → RateLimit
disable r = record r { enabled_categories = 0 }

abbrev pub max_ℤ : ℤ → ℤ → ℤ
max_ℤ a b = if ltb_ℤ a b then b else a

abbrev pub min_ℤ : ℤ → ℤ → ℤ
min_ℤ a b = if ltb_ℤ b a then b else a

unfoldable pub refilled : Budget → Budget
refilled b =
    let carryover = min_ℤ (max_ℤ b.budget (pos 0)) b.limit in
    record b { budget = b.limit +ℤ carryover }

-- The body of the loop of `refill`.
unfoldable pub refill_one : RateLimit → ℕ → RateLimit
refill_one r i =
    if is_enabled r i
    then record r { budgets = set_budget r.budgets i (refilled (r.budgets i)) }
    else r

unfoldable pub refill_from : ℕ → ℕ → RateLimit → RateLimit
refill_from zero i r = r
refill_from (suc left) i r = refill_from left (i + 1) (refill_one r i)

unfoldable pub refill : RateLimit → RateLimit
refill r = if r.enabled_categories == 0 then r else refill_from ec_categories 0 r

-- `atomicDec(budget) > 0`: the value before the subtraction is tested.
unfoldable pub take_one : Budget → Budget × Bool
take_one b = (record b { budget = b.budget -ℤ pos 1 }, ltb_ℤ (pos 0) b.budget)

unfoldable pub allow_category : RateLimit → ℕ → RateLimit × Bool
unfolding take_one
allow_category r category =
    let (b, ok) = take_one (r.budgets category) in
    if is_enabled r category
    then (record r { budgets = set_budget r.budgets category b }, ok)
    else (r, true)

unfoldable pub allow : RateLimit → EventType → RateLimit × Bool
unfolding allow_category event_to_category
allow r type = allow_category r (event_to_category type)
