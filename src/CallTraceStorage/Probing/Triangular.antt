-- ===== src/CallTraceStorage/Probing/Triangular.antt =====
-- Triangular numbers and their remainders by a power of two, for the probing of
-- src/callTraceStorage.cpp.
use async_profiler.Base.{
  ℕ, zero, suc, ◌+◌, ◌-◌, ◌*◌, ◌/◌, ◌%◌, ◌^◌, ◌≤◌, ◌<◌, ◌≡◌, ◌⊎◌, inl, inr, arith, ap, refl, ◌∙◌,
  Bool-cases, ◌==◌, ==_iff, ◌≢◌, ltb, ltb→lt, sym,
}
use async_profiler.Base.Bits.{two-pow_pos, two-pow-suc}
use native.Mathlib.Nat.{div-add-mod, mod-lt, mul-add-mod_self_left, mod-eq_of_lt}

unfoldable pub tri : ℕ → ℕ
tri zero = 0
tri (suc n) = tri n + (n + 1)

tri_closed : (n : ℕ) → 2 * tri n ≡ n * (n + 1)
unfolding tri
tri_closed zero = refl
tri_closed (suc n) = grind (arith, tri_closed n)

-- The mirror image of `i` below `2 * m`.
tri_mirror : (m i j : ℕ) → j + i + 1 ≡ 2 * m → tri j + m * i ≡ tri i + m * j
tri_mirror m i j e =
    omega (arith, tri_closed i, tri_closed j, ap (λ (x : ℕ). x * j) e, ap (λ (x : ℕ). x * i) e)

mod_of_sum : (m q c : ℕ) → c < m → (m * q + c) % m ≡ c
mod_of_sum m q c h = mul-add-mod_self_left m q c ∙ mod-eq_of_lt h

mod_halves : (m b : ℕ) → b < 2 * m → (b < m × (b % m ≡ b)) ⊎ (m ≤ b × (b % m + m ≡ b))
mod_halves m b h = elim (Bool-cases (ltb b m)) [
  | inl low ↦ inl (ltb→lt b m low, mod-eq_of_lt (ltb→lt b m low))
  | inr high ↦
      let le : m ≤ b = ground arith in
      let e : m * 1 + (b - m) ≡ b = omega arith in
      inr (le, omega (arith, ap (λ (x : ℕ). x % m) e, mod_of_sum m 1 (b - m) (omega arith)))
]

mod-mod_double : (m a b : ℕ) → (2 * m * a + b) % m ≡ b % m
mod-mod_double m a b = ap (λ (x : ℕ). x % m) (omega arith) ∙ mul-add-mod_self_left m (2 * a) b

other_half : (m b t : ℕ) → b < 2 * m → t < 2 * m → b % m ≡ t % m → b ≢ t → (b ≡ t + m) ⊎ (t ≡ b + m)
other_half m b t p q e ne = grind (arith, mod_halves m b p, mod_halves m t q)

mirror_quotient :
    (m i j p a b t x y : ℕ)
    → j + i + 1 ≡ 2 * m
    → p + i + 1 ≡ m
    → 2 * m * a + b ≡ x
    → y + m * i ≡ x + m * j
    → (b ≡ t + m) ⊎ (t ≡ b + m)
    → (q : ℕ) × (2 * m * q + t ≡ y)
mirror_quotient m i j p a b t x y e f w d (inl h) =
    (a + p + 1, omega (arith, ap (λ (z : ℕ). m * z) e, ap (λ (z : ℕ). m * z) f))
mirror_quotient m i j p a b t x y e f w d (inr h) =
    (a + p, omega (arith, ap (λ (z : ℕ). m * z) e, ap (λ (z : ℕ). m * z) f))

-- If `tri i` has the right remainder by `m` and the wrong one by `2 * m`, its mirror has the right.
mirror_hits :
    (m i t : ℕ)
    → i < m
    → t < 2 * m
    → tri i % m ≡ t % m
    → tri i % (2 * m) ≢ t
    → tri (2 * m - 1 - i) % (2 * m) ≡ t
mirror_hits m i t h low e ne =
    let a : ℕ = tri i / (2 * m) in
    let b : ℕ = tri i % (2 * m) in
    let j : ℕ = 2 * m - 1 - i in
    let whole : 2 * m * a + b ≡ tri i = div-add-mod (tri i) (2 * m) in
    let under : b < 2 * m = mod-lt (tri i) (omega arith) in
    let same : b % m ≡ t % m = sym (mod-mod_double m a b) ∙ ap (λ (x : ℕ). x % m) whole ∙ e in
    let mirrored : tri j + m * i ≡ tri i + m * j = tri_mirror m i j (omega arith) in
    let (q, sum) =
      mirror_quotient m i j (m - i - 1) a b t (tri i) (tri j) (omega arith) (omega arith) whole
        mirrored (other_half m b t under low same ne) in
    ap (λ (x : ℕ). x % (2 * m)) (sym sum) ∙ mod_of_sum (2 * m) q t low

pub tri_reaches : (k t : ℕ) → t < 2 ^ k → (i : ℕ) × (i < 2 ^ k) × (tri i % 2 ^ k ≡ t)
tri_reaches zero t h = (0, omega arith, omega arith)
tri_reaches (suc k) t h =
    let m : ℕ = 2 ^ k in
    let e = two-pow-suc k in
    let (i, below, good) = tri_reaches k (t % m) (mod-lt t (two-pow_pos k)) in
    elim (Bool-cases (tri i % (2 * m) == t)) [
      | inl hit ↦ (i, omega arith, rw e ((==_iff _ t).0 hit))
      | inr miss ↦ (
        2 * m - 1 - i,
        omega arith,
        rw e (mirror_hits m i t below (omega arith) good (λ p. ground arith)),
      )
    ]
