-- ===== src/Base/Bisect.antt =====
-- Binary search over positions, as the loops of src/codeCache.cpp run it: `low` and `high` are
-- `int`s, and `high` may fall to -1, so that `high` is kept one larger, as `high1`.
use async_profiler.Base.Tests.{if◌then◌else◌, ltb, Bool-cases}
use Prim.Native.Nat.{ℕ, zero, suc, ◌+◌, ◌-◌, ◌/◌, ◌≤◌, ◌<◌}
use mathlib.Core.Path.{◌≡◌, refl}
use mathlib.Core.Logic.{◌⊎◌, inl, inr}
use mathlib.Core.Option.{Option, none, some}
use native.Mathlib.Omega.{arith}

-- Where an entry lies, seen from what is searched.
pub data Side : Type 0 where
  below inside above : Side

pub data Found : Type 0 where
  hit : ℕ → Found
  missed : ℕ → Found

-- `int mid = (unsigned int)(low + high) >> 1`
abbrev pub middle : ℕ → ℕ → ℕ
middle low high1 = (low + high1 - 1) / 2

-- `none` means that the fuel ran out.
unfoldable pub bisect : ℕ → (ℕ → Side) → ℕ → ℕ → Option Found
bisect zero side low high1 = none
bisect (suc fuel) side low high1 =
    let mid = middle low high1 in
    let right = bisect fuel side (mid + 1) high1 in
    let left = bisect fuel side low mid in
    let here : Option Found = elim (side mid) [
      | below ↦ right
      | above ↦ left
      | inside ↦ some (hit mid)
    ] in
    if ltb low high1 then here else some (missed low)

-- Entries below what is searched stand before the others, those above it after the others.
pub record IsOrdered (n : ℕ) (side : ℕ → Side) : Type 0 where
  pub before : (i j : ℕ) → i ≤ j → j < n → side j ≡ below → side i ≡ below
  pub after : (i j : ℕ) → i ≤ j → j < n → side i ≡ above → side j ≡ above

-- The answer is an entry that fits, or the place between those below and those above.
abbrev pub Locates : ℕ → (ℕ → Side) → Option Found → Type 0
Locates n side none = ⊥
Locates n side (some (hit i)) = (i < n) × (side i ≡ inside)
Locates n side (some (missed l)) =
    (l ≤ n) × ((i : ℕ) → i < l → side i ≡ below) × ((i : ℕ) → l ≤ i → i < n → side i ≡ above)

Side-cases : (s : Side) → (s ≡ below) ⊎ ((s ≡ inside) ⊎ (s ≡ above))
Side-cases below = inl refl
Side-cases inside = inr (inl refl)
Side-cases above = inr (inr refl)

bisect-Locates :
    (fuel n low high1 : ℕ) (side : ℕ → Side)
    → IsOrdered n side
    → high1 < low + fuel
    → low ≤ high1
    → high1 ≤ n
    → ((i : ℕ) → i < low → side i ≡ below)
    → ((i : ℕ) → high1 ≤ i → i < n → side i ≡ above)
    → Locates n side (bisect fuel side low high1)
unfolding bisect
bisect-Locates zero n low high1 side o f lh hn lo hi = absurd (omega arith)
bisect-Locates (suc fuel) n low high1 side o f lh hn lo hi = elim (Bool-cases (ltb low high1)) [
  | inr done ↦
      let e : low ≡ high1 = ground arith in rw done (omega arith, lo, λ i p q. hi i (omega arith) q)
  | inl more ↦
      let mid : ℕ = middle low high1 in
      let lt : low < high1 = ground arith in
      elim (Side-cases (side mid)) [
        | inl b ↦
            rw (more, b)
              (bisect-Locates fuel n (mid + 1) high1 side o (omega arith) (omega arith) hn
                (λ i p. o.before i mid (omega arith) (omega arith) b) hi)
        | inr (inl e) ↦ rw (more, e) (omega arith, e)
        | inr (inr a) ↦
            rw (more, a)
              (bisect-Locates fuel n low mid side o (omega arith) (omega arith) (omega arith) lo
                (λ i p q. o.after mid i p q a))
      ]
]

-- From the whole range, one round more than there are entries is enough.
pub bisect_all-Locates :
    (n : ℕ) (side : ℕ → Side) → IsOrdered n side → Locates n side (bisect (suc n) side 0 n)
bisect_all-Locates n side o =
    bisect-Locates (suc n) n 0 n side o (omega arith) (omega arith) (omega arith)
      (λ i p. absurd (omega arith)) (λ i p q. absurd (omega arith))
