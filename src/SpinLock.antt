-- ===== src/SpinLock.antt =====
-- src/spinLock.h: a lock in one word, exclusive or shared, for any number of threads.
-- `_lock` is an integer (its 32 bits hold as many readers as there can be threads). Each atomic
-- access is one step of one thread, and a run is any sequence of such steps: the busy loops of
-- `lock` and `lockShared` are repeated steps. A thread gives back only what it holds.
pub mod Exclusion
pub mod Recovery
mod Tests
use async_profiler.Base.{
  ℕ, zero, suc, Bool, true, false, List, [], ◌∷◌, if◌then◌else◌, ◌&&◌, leb, ◌==◌,
}
use async_profiler.Base.Int.{ℤ, pos, negsuc, ◌+ℤ◌, ◌-ℤ◌, pos_part, neg_part}

abbrev pub eq_ℤ : ℤ → ℤ → Bool
eq_ℤ a b = (pos_part a == pos_part b) && (neg_part a == neg_part b)

-- `_lock <= 0`
abbrev pub is_free_to_share : ℤ → Bool
is_free_to_share l = pos_part l == 0

-- __sync_bool_compare_and_swap: the new value, and whether it was stored.
unfoldable pub compare_and_swap : ℤ → ℤ → ℤ → ℤ × Bool
compare_and_swap l old new = if eq_ℤ l old then (new, true) else (l, false)

unfoldable pub reset : ℤ → ℤ
reset l = pos 0

unfoldable pub try_lock : ℤ → ℤ × Bool
unfolding compare_and_swap
try_lock l = compare_and_swap l (pos 0) (pos 1)

unfoldable pub unlock : ℤ → ℤ
unlock l = l -ℤ pos 1

-- The CAS of `tryLockShared` and `lockShared`, after `value` was read and found free to share.
unfoldable pub share_from : ℤ → ℤ → ℤ × Bool
unfolding compare_and_swap
share_from l value = compare_and_swap l value (value -ℤ pos 1)

unfoldable pub unlock_shared : ℤ → ℤ
unlock_shared l = l +ℤ pos 1

-- Where a thread stands: outside, between the read and the CAS of a shared lock, or inside.
pub data Thread : Type 0 where
  idle : Thread
  loaded : ℤ → Thread
  exclusive : Thread
  shared : Thread

pub data Action : Type 0 where
  tries_lock unlocks loads_shared swaps_shared unlocks_shared : Action

abbrev entered : Thread → ℤ × Bool → ℤ × Thread
entered t (l, true) = (l, t)
entered t (l, false) = (l, idle)

-- One atomic access by a thread. What it cannot do where it stands changes nothing.
unfoldable pub thread_step : Action → ℤ → Thread → ℤ × Thread
unfolding try_lock unlock share_from unlock_shared
thread_step tries_lock l idle = entered exclusive (try_lock l)
thread_step unlocks l exclusive = (unlock l, idle)
thread_step loads_shared l idle = if is_free_to_share l then (l, loaded l) else (l, idle)
thread_step swaps_shared l (loaded value) = entered shared (share_from l value)
thread_step unlocks_shared l shared = (unlock_shared l, idle)
thread_step _ l t = (l, t)

pub record System : Type 0 where
  pub lock : ℤ
  pub threads : List Thread

unfoldable pub step_threads : ℕ → Action → ℤ → List Thread → ℤ × List Thread
step_threads i a l [] = (l, [])
step_threads zero a l (t ∷ ts) = let (l', t') = thread_step a l t in (l', t' ∷ ts)
step_threads (suc i) a l (t ∷ ts) = let (l', ts') = step_threads i a l ts in (l', t ∷ ts')

unfoldable pub step : ℕ × Action → System → System
step (i, a) s = let (l, ts) = step_threads i a s.lock s.threads in record { lock = l; threads = ts }

unfoldable pub run : List (ℕ × Action) → System → System
run [] s = s
run (x ∷ xs) s = run xs (step x s)
