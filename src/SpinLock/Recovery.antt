-- ===== src/SpinLock/Recovery.antt =====
-- How the threads give back the lock of src/spinLock.h.
use async_profiler.Base.{
  ℕ, suc, ◌≡◌, refl, ap, sym, ◌∙◌, subst, arith, Bool, true, false, List, [], ◌∷◌, ◌++◌,
}
use async_profiler.Base.Int.{ℤ, pos, negsuc, pos_part, neg_part}
use async_profiler.SpinLock.{
  Thread, idle, loaded, exclusive, shared, Action, entered, thread_step, System, step_threads, step,
  run, try_lock, share_from, compare_and_swap, unlocks, swaps_shared, unlocks_shared,
}
use async_profiler.SpinLock.Exclusion.{
  start, Counts, run-Counts, start-Counts, writer, writers, reader, readers,
}

-- The steps by which a thread ends what it has begun.
abbrev pub ending : Thread → List Action
ending idle = []
ending (loaded v) = swaps_shared ∷ unlocks_shared ∷ []
ending exclusive = unlocks ∷ []
ending shared = unlocks_shared ∷ []

abbrev by_first : List Action → List (ℕ × Action)
by_first [] = []
by_first (a ∷ actions) = (0, a) ∷ by_first actions

abbrev by_others : List (ℕ × Action) → List (ℕ × Action)
by_others [] = []
by_others ((i, a) ∷ xs) = (suc i, a) ∷ by_others xs

-- Each thread in turn ends what it has begun.
abbrev pub endings : List Thread → List (ℕ × Action)
endings [] = []
endings (t ∷ ts) = by_first (ending t) ++ by_others (endings ts)

abbrev pub AllIdle : List Thread → Type 0
AllIdle [] = Unit
AllIdle (t ∷ ts) = (t ≡ idle) × AllIdle ts

abbrev system : ℤ → List Thread → System
system l ts = record { lock = l; threads = ts }

abbrev thread_run : List Action → ℤ × Thread → ℤ × Thread
thread_run [] state = state
thread_run (a ∷ actions) (l, t) = thread_run actions (thread_step a l t)

run_append : (xs ys : List (ℕ × Action)) (s : System) → run (xs ++ ys) s ≡ run ys (run xs s)
unfolding run
run_append [] ys s = refl
run_append (x ∷ xs) ys s = run_append xs ys (step x s)

run-by_first :
    (actions : List Action) (l : ℤ) (t : Thread) (ts : List Thread)
    → run (by_first actions) (system l (t ∷ ts))
      ≡ system (thread_run actions (l, t)).0 ((thread_run actions (l, t)).1 ∷ ts)
unfolding run step step_threads
run-by_first [] l t ts = refl
run-by_first (a ∷ actions) l t ts =
    run-by_first actions (thread_step a l t).0 (thread_step a l t).1 ts

run-by_others :
    (xs : List (ℕ × Action)) (l : ℤ) (t : Thread) (ts : List Thread)
    → run (by_others xs) (system l (t ∷ ts))
      ≡ system (run xs (system l ts)).lock (t ∷ (run xs (system l ts)).threads)
unfolding run step step_threads
run-by_others [] l t ts = refl
run-by_others ((i, a) ∷ xs) l t ts =
    run-by_others xs (step_threads i a l ts).0 t (step_threads i a l ts).1

shared_ends :
    (result : ℤ × Bool)
    → (thread_step unlocks_shared (entered shared result).0 (entered shared result).1).1 ≡ idle
unfolding thread_step
shared_ends (l, true) = refl
shared_ends (l, false) = refl

ending_lem : (l : ℤ) (t : Thread) → (thread_run (ending t) (l, t)).1 ≡ idle
unfolding thread_step
ending_lem l idle = refl
ending_lem l exclusive = refl
ending_lem l shared = refl
ending_lem l (loaded v) = shared_ends (share_from l v)

AllIdle-endings : (l : ℤ) (ts : List Thread) → AllIdle (run (endings ts) (system l ts)).threads
unfolding run
AllIdle-endings l [] = tt
AllIdle-endings l (t ∷ ts) =
    let state : ℤ × Thread = thread_run (ending t) (l, t) in
    let whole : run (endings (t ∷ ts)) (system l (t ∷ ts))
        ≡ system (run (endings ts) (system state.0 ts)).lock
            (state.1 ∷ (run (endings ts) (system state.0 ts)).threads) =
      run_append (by_first (ending t)) (by_others (endings ts)) (system l (t ∷ ts))
      ∙ ap (run (by_others (endings ts))) (run-by_first (ending t) l t ts)
      ∙ run-by_others (endings ts) state.0 state.1 ts in
    subst (λ (s : System). AllIdle s.threads) (sym whole)
      (ending_lem l t, AllIdle-endings state.0 ts)

nobody_holds : (ts : List Thread) → AllIdle ts → (writers ts ≡ 0) × (readers ts ≡ 0)
nobody_holds [] h = (refl, refl)
nobody_holds (t ∷ ts) (here, rest) =
    let (no_writer, no_reader) = nobody_holds ts rest in
    (omega (arith, ap writer here), omega (arith, ap reader here))

free_lock : (l : ℤ) → pos_part l ≡ 0 → neg_part l ≡ 0 → l ≡ pos 0
free_lock (pos n) above below = ap pos above
free_lock (negsuc n) above below = absurd (omega arith)

-- After any run, whatever the interleaving was, if each thread in turn ends what it has begun (a thread
-- between the read and the swap of a shared lock swaps, and gives back what it got), all threads are
-- outside, the lock word is 0, and `tryLock` succeeds.
pub lock_recovers :
    (n : ℕ) (xs : List (ℕ × Action))
    → let s : System = run xs (start n) in
      let after : System = run (endings s.threads) s in
      AllIdle after.threads × ((after.lock ≡ pos 0) × ((try_lock after.lock).1 ≡ true))
unfolding try_lock compare_and_swap
lock_recovers n xs =
    let s : System = run xs (start n) in
    let after : System = run (endings s.threads) s in
    let outside : AllIdle after.threads = AllIdle-endings s.lock s.threads in
    let counts : Counts after =
      run-Counts (endings s.threads) s (run-Counts xs (start n) (start-Counts n)) in
    let (no_writer, no_reader) = nobody_holds after.threads outside in
    let zeroed : after.lock ≡ pos 0 =
      free_lock after.lock (counts.above ∙ no_writer) (counts.below ∙ no_reader) in
    (outside, (zeroed, ap (λ (l : ℤ). (try_lock l).1) zeroed))
