-- ===== src/Base/Bits.antt =====
-- Bit operations at variables: the digit recursion of each, masks, and single bits.
use Prim.Native.Nat.{
  ℕ, zero, suc, ◌+◌, ◌-◌, ◌*◌, ◌/◌, ◌%◌, ◌^◌, ◌≤◌, ◌<◌, min, max, bit_and, bit_or, digits,
  bit_and-bitwise, bit_or-bitwise,
}
use mathlib.Core.Logic.{◌≢◌}
use mathlib.Core.Path.{◌≡◌, refl, sym, ap, subst, ◌∙◌}
use native.Mathlib.Omega.{arith}
use native.Mathlib.Nat.{
  pow-suc, mod-lt, mod-eq_of_lt, div-add-mod, mul-add-mod_self_left, div-div-eq-div-mul,
}

-- Induction on the binary digits of a number.
halving_within :
    (P : ℕ → Type 0) (zero_case : P 0) (step : (a : ℕ) → P (suc a / 2) → P (suc a)) (bound a : ℕ)
    → a ≤ bound
    → P a
halving_within P zero_case step bound zero h = zero_case
halving_within P zero_case step zero (suc a) h = absurd (omega arith)
halving_within P zero_case step (suc bound) (suc a) h =
    step a (halving_within P zero_case step bound (suc a / 2) (omega arith))

halving : (P : ℕ → Type 0) → P 0 → ((a : ℕ) → P (suc a / 2) → P (suc a)) → (a : ℕ) → P a
halving P zero_case step a = halving_within P zero_case step a a (omega arith)

module _ (end : ℕ → ℕ) (f : ℕ → ℕ → ℕ) where
  -- The digit recursion behind the native operations does not depend on its fuel.
  digits_fuel : (a b n m : ℕ) → a ≤ n → a ≤ m → digits end f n a b ≡ digits end f m a b
  digits_fuel zero b zero zero p q = refl
  digits_fuel zero b zero (suc m) p q = refl
  digits_fuel zero b (suc n) zero p q = refl
  digits_fuel zero b (suc n) (suc m) p q = refl
  digits_fuel (suc a) b zero m p q = absurd (omega arith)
  digits_fuel (suc a) b (suc n) zero p q = absurd (omega arith)
  digits_fuel (suc a) b (suc n) (suc m) p q =
      let rest : digits end f n (suc a / 2) (b / 2) ≡ digits end f m (suc a / 2) (b / 2) =
        digits_fuel (suc a / 2) (b / 2) n m (omega arith) (omega arith) in
      ap (λ (d : ℕ). d * 2 + f (suc a % 2) (b % 2)) rest

  digits_step :
      (a b : ℕ)
      → digits end f (suc a) (suc a) b
        ≡ digits end f (suc a / 2) (suc a / 2) (b / 2) * 2 + f (suc a % 2) (b % 2)
  digits_step a b =
      ap (λ (d : ℕ). d * 2 + f (suc a % 2) (b % 2))
        (digits_fuel (suc a / 2) (b / 2) a (suc a / 2) (omega arith) (omega arith))

pub zero-bit_and : (b : ℕ) → bit_and 0 b ≡ 0
zero-bit_and = bit_and-bitwise 0

pub zero-bit_or : (b : ℕ) → bit_or 0 b ≡ b
zero-bit_or = bit_or-bitwise 0

-- The lowest digit of each operation, and the rest.
pub bit_and_step : (m n : ℕ) → bit_and m n ≡ bit_and (m / 2) (n / 2) * 2 + min (m % 2) (n % 2)
bit_and_step zero n = omega (arith, zero-bit_and (n / 2), zero-bit_and n)
bit_and_step (suc m) n =
    bit_and-bitwise (suc m) n
    ∙ digits_step (λ _. 0) min m n
    ∙ ap (λ (d : ℕ). d * 2 + min (suc m % 2) (n % 2)) (sym (bit_and-bitwise (suc m / 2) (n / 2)))

pub bit_or_step : (m n : ℕ) → bit_or m n ≡ bit_or (m / 2) (n / 2) * 2 + max (m % 2) (n % 2)
bit_or_step zero n = omega (arith, zero-bit_or (n / 2), zero-bit_or n)
bit_or_step (suc m) n =
    bit_or-bitwise (suc m) n
    ∙ digits_step (λ c. c) max m n
    ∙ ap (λ (d : ℕ). d * 2 + max (suc m % 2) (n % 2)) (sym (bit_or-bitwise (suc m / 2) (n / 2)))

pub bit_and-zero : (a : ℕ) → bit_and a 0 ≡ 0
bit_and-zero =
    halving (λ a. bit_and a 0 ≡ 0) refl (λ a ih. omega (arith, bit_and_step (suc a) 0, ih))

pub bit_or-zero : (a : ℕ) → bit_or a 0 ≡ a
bit_or-zero = halving (λ a. bit_or a 0 ≡ a) refl (λ a ih. omega (arith, bit_or_step (suc a) 0, ih))

pub bit_or_comm : (m n : ℕ) → bit_or m n ≡ bit_or n m
bit_or_comm =
    halving (λ m. (n : ℕ) → bit_or m n ≡ bit_or n m)
      (λ n. omega (arith, zero-bit_or n, bit_or-zero n))
      (λ m ih n. omega (arith, bit_or_step (suc m) n, bit_or_step n (suc m), ih (n / 2)))

pub two-pow_pos : (k : ℕ) → 0 < 2 ^ k
two-pow_pos zero = omega arith
two-pow_pos (suc k) = omega (arith, pow-suc 2 k, two-pow_pos k)

pub two-pow-suc : (k : ℕ) → 2 ^ suc k ≡ 2 * 2 ^ k
two-pow-suc k = omega (arith, pow-suc 2 k)

mod_double : (a m : ℕ) → 0 < m → a % (2 * m) ≡ a / 2 % m * 2 + a % 2
mod_double a m h =
    let c : ℕ = a / 2 % m * 2 + a % 2 in
    let low : c < 2 * m = omega (arith, mod-lt (a / 2) h) in
    let whole : 2 * m * (a / 2 / m) + c ≡ a =
      grind (arith, div-add-mod (a / 2) m, div-add-mod a 2) in
    subst (λ x. x % (2 * m) ≡ c) whole
      (mul-add-mod_self_left (2 * m) (a / 2 / m) c ∙ mod-eq_of_lt low)

pub mod-two-pow-suc : (a k : ℕ) → a % 2 ^ suc k ≡ a / 2 % 2 ^ k * 2 + a % 2
mod-two-pow-suc a k = rw (two-pow-suc k) (mod_double a (2 ^ k) (two-pow_pos k))

half_mask : (k : ℕ) → (2 ^ suc k - 1) / 2 ≡ 2 ^ k - 1
half_mask k = omega (arith, two-pow-suc k, two-pow_pos k)

-- Masking with k ones is the remainder by 2 ^ k, at every width.
pub bit_and-mask : (k a : ℕ) → bit_and a (2 ^ k - 1) ≡ a % 2 ^ k
bit_and-mask zero a = omega (arith, bit_and-zero a)
bit_and-mask (suc k) a =
    rw (bit_and_step a (2 ^ suc k - 1), half_mask k, bit_and-mask k (a / 2), mod-two-pow-suc a k)
      (omega (arith, two-pow-suc k, two-pow_pos k))

-- A disjunction is 0 only where both sides are.
pub bit_or_clear : (m n : ℕ) → bit_or m n ≡ 0 → m ≡ 0
bit_or_clear =
    halving (λ m. (n : ℕ) → bit_or m n ≡ 0 → m ≡ 0) (λ n e. refl)
      (λ m ih n e.
        omega (arith, bit_or_step (suc m) n, ih (n / 2) (omega (arith, bit_or_step (suc m) n))))

-- Bit k of a word, as 0 or 1.
abbrev pub bit : ℕ → ℕ → ℕ
bit k w = w / 2 ^ k % 2

pub bit-suc : (k w : ℕ) → bit (suc k) w ≡ bit k (w / 2)
bit-suc k w = rw (two-pow-suc k, ← div-div-eq-div-mul w 2 (2 ^ k))

pub bit-bit_or : (k a b : ℕ) → bit k (bit_or a b) ≡ max (bit k a) (bit k b)
bit-bit_or zero a b = omega (arith, bit_or_step a b)
bit-bit_or (suc k) a b =
    let halved : bit_or a b / 2 ≡ bit_or (a / 2) (b / 2) = omega (arith, bit_or_step a b) in
    rw (bit-suc k (bit_or a b), bit-suc k a, bit-suc k b, halved) (bit-bit_or k (a / 2) (b / 2))

pub bit-bit_and : (k a b : ℕ) → bit k (bit_and a b) ≡ min (bit k a) (bit k b)
bit-bit_and zero a b = omega (arith, bit_and_step a b)
bit-bit_and (suc k) a b =
    let halved : bit_and a b / 2 ≡ bit_and (a / 2) (b / 2) = omega (arith, bit_and_step a b) in
    rw (bit-suc k (bit_and a b), bit-suc k a, bit-suc k b, halved) (bit-bit_and k (a / 2) (b / 2))

zero-div-two-pow : (k : ℕ) → bit k 0 ≡ 0
zero-div-two-pow zero = omega arith
zero-div-two-pow (suc k) = bit-suc k 0 ∙ zero-div-two-pow k

pub bit-two-pow_self : (k : ℕ) → bit k (2 ^ k) ≡ 1
bit-two-pow_self zero = omega arith
bit-two-pow_self (suc k) =
    let halved : 2 ^ suc k / 2 ≡ 2 ^ k = omega (arith, two-pow-suc k) in
    rw (bit-suc k (2 ^ suc k), halved) (bit-two-pow_self k)

pub bit-two-pow_ne : (j k : ℕ) → j ≢ k → bit j (2 ^ k) ≡ 0
bit-two-pow_ne zero zero h = absurd (h refl)
bit-two-pow_ne zero (suc k) h = omega (arith, two-pow-suc k)
bit-two-pow_ne (suc j) zero h = rw (bit-suc j 1) (zero-div-two-pow j)
bit-two-pow_ne (suc j) (suc k) h =
    let halved : 2 ^ suc k / 2 ≡ 2 ^ k = omega (arith, two-pow-suc k) in
    rw (bit-suc j (2 ^ suc k), halved) (bit-two-pow_ne j k (λ e. h (ap suc e)))

-- Where the low k bits of one number are free, `or` puts another number there.
pub bit_or-low : (k a b : ℕ) → b < 2 ^ k → bit_or (a * 2 ^ k) b ≡ a * 2 ^ k + b
bit_or-low zero a zero h = rw (bit_or-zero (a * 1)) (omega arith)
bit_or-low zero a (suc b) h = absurd (omega arith)
bit_or-low (suc k) a b h =
    let e = two-pow-suc k in
    let double : a * 2 ^ suc k ≡ 2 * (a * 2 ^ k) = omega (arith, ap (λ (x : ℕ). a * x) e) in
    let halved : a * 2 ^ suc k / 2 ≡ a * 2 ^ k = omega arith in
    omega (
      arith,
      bit_or_step (a * 2 ^ suc k) b,
      ap (λ (x : ℕ). bit_or x (b / 2)) halved,
      bit_or-low k a (b / 2) (omega arith),
    )

-- Setting bit k, and keeping the bits up to it.
pub bit_or-top : (k n : ℕ) → bit_or (2 ^ k) n % 2 ^ suc k ≡ n % 2 ^ k + 2 ^ k
bit_or-top zero n = omega (arith, bit_or_step 1 n)
bit_or-top (suc k) n =
    let e = two-pow-suc k in
    let x : ℕ = bit_or (2 ^ suc k) n in
    let half : 2 ^ suc k / 2 ≡ 2 ^ k = omega arith in
    let step : x ≡ bit_or (2 ^ k) (n / 2) * 2 + n % 2 =
      omega (arith, bit_or_step (2 ^ suc k) n, ap (λ (y : ℕ). bit_or y (n / 2)) half) in
    let halved : x / 2 ≡ bit_or (2 ^ k) (n / 2) = omega arith in
    omega (
      arith,
      mod-two-pow-suc x (suc k),
      mod-two-pow-suc n k,
      ap (λ (y : ℕ). y % 2 ^ suc k) halved,
      bit_or-top k (n / 2),
    )

-- Masking with one bit tests it.
pub bit_and-two-pow : (k w : ℕ) → bit_and w (2 ^ k) ≡ bit k w * 2 ^ k
bit_and-two-pow zero w = omega (arith, bit_and_step w 1, bit_and-zero (w / 2))
bit_and-two-pow (suc k) w =
    let e = two-pow-suc k in
    let half : 2 ^ suc k / 2 ≡ 2 ^ k = omega arith in
    omega (
      arith,
      bit_and_step w (2 ^ suc k),
      ap (λ (x : ℕ). bit_and (w / 2) x) half,
      bit_and-two-pow k (w / 2),
      bit-suc k w,
      ap (λ (x : ℕ). bit (suc k) w * x) e,
      ap (λ (x : ℕ). x * 2 ^ k) (bit-suc k w),
    )
