-- ===== src/RateLimit/Tests.antt =====
-- Runs of the rate limit on concrete inputs.
use async_profiler.Base.{ℕ, ◌*◌, ◌≤◌, ◌≡◌, refl, arith, min, ◌==◌, if◌then◌else◌}
use async_profiler.Base.Int.{pos, negsuc}
use async_profiler.RateLimit.{
  RateLimit, refill, enable, ec_alloc, event_to_category, native_lock_sample,
}
use async_profiler.RateLimit.Budgets.{
  allowed, allowed-refill, category_table, event_to_category_lem,
}

abbrev no_budgets : RateLimit
no_budgets = record {
  budgets = λ _. record { budget = pos 0; limit = pos 0 };
  enabled_categories = 0;
}

-- Three allocation samples at a time, and no limit on other events.
abbrev three_allocations : RateLimit
three_allocations = enable no_budgets (λ i. if i == ec_alloc then pos 3 else negsuc 0)

allowed-refill_example :
    let passed : ℕ = (allowed 10 (refill three_allocations) ec_alloc).1 in
    (min 10 3 ≤ passed) × (passed ≤ 2 * 3) × (passed ≤ 10)
unfolding enable
allowed-refill_example = allowed-refill 10 3 three_allocations ec_alloc (omega arith) refl refl

event_to_category_lem_example :
    event_to_category native_lock_sample ≡ category_table native_lock_sample
event_to_category_lem_example = event_to_category_lem native_lock_sample
