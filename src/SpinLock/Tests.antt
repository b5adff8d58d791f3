-- ===== src/SpinLock/Tests.antt =====
-- Runs of the lock on concrete inputs.
use async_profiler.Base.{ℕ, ◌≤◌, ◌<◌, ◌≡◌, refl, true, List, [], ◌∷◌, ◌↔◌}
use async_profiler.Base.Int.{ℤ, pos, pos_part, neg_part}
use async_profiler.SpinLock.{
  Action, idle, shared, thread_step, System, run, step, step_threads, try_lock, tries_lock,
  loads_shared, swaps_shared,
}
use async_profiler.SpinLock.Recovery.{endings, AllIdle, lock_recovers}
use async_profiler.SpinLock.Exclusion.{writers, readers, start, mutual_exclusion, acquire_iff_free}

-- A writer comes between the read and the CAS of a reader, which fails; a second reader waits.
abbrev race : List (ℕ × Action)
race = (0, loads_shared) ∷ (1, tries_lock) ∷ (0, swaps_shared) ∷ (2, loads_shared) ∷ []

mutual_exclusion_example :
    let s : System = run race (start 3) in
    (writers s.threads ≤ 1)
    × (0 < writers s.threads → readers s.threads ≡ 0)
    × (pos_part s.lock ≡ writers s.threads)
    × (neg_part s.lock ≡ readers s.threads)
mutual_exclusion_example = mutual_exclusion 3 race

acquire_iff_free_example :
    let s : System = run race (start 3) in
    let l : ℤ = s.lock in
    (((try_lock l).1 ≡ true) ↔ ((writers s.threads ≡ 0) × (readers s.threads ≡ 0)))
    × (((thread_step swaps_shared l (thread_step loads_shared l idle).1).1 ≡ shared)
        ↔ (writers s.threads ≡ 0))
acquire_iff_free_example = acquire_iff_free 3 race

race_won : writers (run race (start 3)).threads ≡ 1
unfolding run step step_threads thread_step
race_won = refl

lock_recovers_example :
    let s : System = run race (start 3) in
    let after : System = run (endings s.threads) s in
    AllIdle after.threads × ((after.lock ≡ pos 0) × ((try_lock after.lock).1 ≡ true))
lock_recovers_example = lock_recovers 3 race
