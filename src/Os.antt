-- ===== src/Os.antt =====
-- The operating system calls of src/os.h that the modelled code makes: anonymous memory mapping.
-- `State` is whatever the system keeps between calls; a successful mapping yields an address.
use async_profiler.Base.{ℕ, ◌+◌, Option, none, some}

pub record Os : Type 1 where
  pub State : Type 0
  pub safe_alloc : State → ℕ → Option ℕ × State
  pub safe_free : State → ℕ → ℕ → State

-- Two systems for runs on concrete inputs: one grants each request at the next free address, the
-- other one refuses all.
abbrev pub granting : Os
granting = record { State = ℕ; safe_alloc = λ s n. (some s, s + n); safe_free = λ s p n. s }

abbrev pub refusing : Os
refusing = record { State = ℕ; safe_alloc = λ s n. (none, s); safe_free = λ s p n. s }
