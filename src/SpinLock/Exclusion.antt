-- ===== src/SpinLock/Exclusion.antt =====
-- The holders of the lock of src/spinLock.h, in every interleaving.
use async_profiler.Base.{ℕ, zero, suc, ◌+◌, ◌≤◌, ◌<◌, ◌≡◌, refl, true, List, [], ◌∷◌, arith, ◌↔◌}
use async_profiler.Base.Int.{ℤ, pos, negsuc, ◌+ℤ◌, ◌-ℤ◌, pos_part, neg_part}
use async_profiler.SpinLock.{
  Thread, idle, loaded, exclusive, shared, Action, thread_step, System, step_threads, step, run,
  try_lock, tries_lock, unlocks, loads_shared, swaps_shared, unlocks_shared,
}

abbrev pub writer : Thread → ℕ
writer exclusive = 1
writer _ = 0

abbrev pub reader : Thread → ℕ
reader shared = 1
reader _ = 0

abbrev pub writers : List Thread → ℕ
writers [] = 0
writers (t ∷ ts) = writer t + writers ts

abbrev pub readers : List Thread → ℕ
readers [] = 0
readers (t ∷ ts) = reader t + readers ts

-- A value that a thread has read and is about to swap was free to share.
abbrev HasSharable : Thread → Type 0
HasSharable (loaded v) = pos_part v ≡ 0
HasSharable _ = Unit

abbrev AllSharable : List Thread → Type 0
AllSharable [] = Unit
AllSharable (t ∷ ts) = HasSharable t × AllSharable ts

-- The lock word counts the holders: writers above zero, readers below.
pub record Counts (s : System) : Type 0 where
  pub above : pos_part s.lock ≡ writers s.threads
  pub below : neg_part s.lock ≡ readers s.threads
  pub single : writers s.threads ≤ 1
  pub sharable : AllSharable s.threads

-- What one access does to the word and to the holders.
record Moves (l l' : ℤ) (t t' : Thread) : Type 0 where
  up : pos_part l' + writer t ≡ pos_part l + writer t'
  down : neg_part l' + reader t ≡ neg_part l + reader t'
  fine : HasSharable t'
  most : writer t' ≤ writer t + 1
  alone : writer t < writer t' → (pos_part l ≡ 0) × (neg_part l ≡ 0)

thread_step-Moves :
    (a : Action) (l : ℤ) (t : Thread)
    → HasSharable t
    → writer t ≤ pos_part l
    → reader t ≤ neg_part l
    → pos_part l ≤ 1
    → Moves l (thread_step a l t).0 t (thread_step a l t).1
unfolding thread_step ◌-ℤ◌ ◌+ℤ◌
thread_step-Moves tries_lock l idle h w r o = ground arith
thread_step-Moves unlocks l exclusive h w r o = ground arith
thread_step-Moves loads_shared l idle h w r o = ground arith
thread_step-Moves swaps_shared l (loaded v) h w r o = ground arith
thread_step-Moves unlocks_shared l shared h w r o = ground arith
thread_step-Moves _ l t h w r o = ground arith

record MovesAll (l l' : ℤ) (ts ts' : List Thread) : Type 0 where
  up : pos_part l' + writers ts ≡ pos_part l + writers ts'
  down : neg_part l' + readers ts ≡ neg_part l + readers ts'
  fine : AllSharable ts'
  most : writers ts' ≤ writers ts + 1
  alone : writers ts < writers ts' → (pos_part l ≡ 0) × (neg_part l ≡ 0)

step_threads-Moves :
    (i : ℕ) (a : Action) (l : ℤ) (ts : List Thread)
    → AllSharable ts
    → writers ts ≤ pos_part l
    → readers ts ≤ neg_part l
    → pos_part l ≤ 1
    → MovesAll l (step_threads i a l ts).0 ts (step_threads i a l ts).1
unfolding step_threads
step_threads-Moves i a l [] h w r o = ground arith
step_threads-Moves zero a l (t ∷ ts) (h, hs) w r o =
    let m = thread_step-Moves a l t h (omega arith) (omega arith) o in
    record {
      up = omega (arith, m.up);
      down = omega (arith, m.down);
      fine = (m.fine, hs);
      most = omega (arith, m.most);
      alone = λ p. m.alone (omega arith);
    }
step_threads-Moves (suc i) a l (t ∷ ts) (h, hs) w r o =
    let m = step_threads-Moves i a l ts hs (omega arith) (omega arith) o in
    record {
      up = omega (arith, m.up);
      down = omega (arith, m.down);
      fine = (h, m.fine);
      most = omega (arith, m.most);
      alone = λ p. m.alone (omega arith);
    }

-- An integer is not on both sides of zero.
one_sided : (l : ℤ) → 0 < pos_part l → neg_part l ≡ 0
one_sided (pos n) h = refl
one_sided (negsuc n) h = absurd (omega arith)

step-Counts : (x : ℕ × Action) (s : System) → Counts s → Counts (step x s)
unfolding step
step-Counts (i, a) s c =
    let m =
      step_threads-Moves i a s.lock s.threads c.sharable (omega (arith, c.above))
        (omega (arith, c.below)) (omega (arith, c.above, c.single)) in
    record {
      above = omega (arith, m.up, c.above);
      below = omega (arith, m.down, c.below);
      single = ground (arith, m.up, m.most, c.above, c.single, m.alone);
      sharable = m.fine;
    }

pub run-Counts : (xs : List (ℕ × Action)) (s : System) → Counts s → Counts (run xs s)
unfolding run
run-Counts [] s c = c
run-Counts (x ∷ xs) s c = run-Counts xs (step x s) (step-Counts x s c)

abbrev idlers : ℕ → List Thread
idlers zero = []
idlers (suc n) = idle ∷ idlers n

abbrev pub start : ℕ → System
start n = record { lock = pos 0; threads = idlers n }

idlers_free : (n : ℕ) → (writers (idlers n) ≡ 0) × (readers (idlers n) ≡ 0) × AllSharable (idlers n)
idlers_free zero = (refl, refl, tt)
idlers_free (suc n) = let (w, r, a) = idlers_free n in (omega arith, omega arith, (tt, a))

pub start-Counts : (n : ℕ) → Counts (start n)
start-Counts n =
    let (w, r, a) = idlers_free n in
    record { above = omega arith; below = omega arith; single = omega arith; sharable = a }

-- Starting unlocked, after any interleaving of the steps of any number of threads: at most one
-- thread holds the lock exclusively, none shares it then, and the lock word is the number of
-- exclusive holders less the number of sharing ones.
pub mutual_exclusion :
    (n : ℕ) (xs : List (ℕ × Action))
    → let s : System = run xs (start n) in
      (writers s.threads ≤ 1)
      × (0 < writers s.threads → readers s.threads ≡ 0)
      × (pos_part s.lock ≡ writers s.threads)
      × (neg_part s.lock ≡ readers s.threads)
mutual_exclusion n xs =
    let s = run xs (start n) in
    let c = run-Counts xs (start n) (start-Counts n) in
    (
      c.single,
      λ held. omega (arith, c.above, c.below, one_sided s.lock (omega (arith, c.above))),
      c.above,
      c.below,
    )

-- In a reachable state: `tryLock` by an idle thread succeeds exactly if nobody holds the lock, and a
-- read and CAS with no step between them gets the lock shared exactly if nobody holds it exclusively.
pub acquire_iff_free :
    (n : ℕ) (xs : List (ℕ × Action))
    → let s : System = run xs (start n) in
      let l : ℤ = s.lock in
      (((try_lock l).1 ≡ true) ↔ ((writers s.threads ≡ 0) × (readers s.threads ≡ 0)))
      × (((thread_step swaps_shared l (thread_step loads_shared l idle).1).1 ≡ shared)
          ↔ (writers s.threads ≡ 0))
unfolding try_lock thread_step ◌-ℤ◌
acquire_iff_free n xs =
    let s = run xs (start n) in
    let c = run-Counts xs (start n) (start-Counts n) in
    (ground (arith, c.above, c.below), ground (arith, c.above))
