-- ===== src/Dwarf/Leb.antt =====
-- `getLeb` of src/dwarf.h and the LEB128 encoding (the one of `putVarInt` in src/protobuf.cpp).
use async_profiler.Base.{
  ℕ, zero, suc, ◌+◌, ◌-◌, ◌*◌, ◌/◌, ◌%◌, ◌^◌, ◌<◌, ◌≡◌, List, [], ◌∷◌, some, arith, length, ◌==◌,
  Bool-cases, inl, inr, bit_and, bit_or, ap, sym, subst, ◌∙◌, true, false,
}
use async_profiler.Base.Bits.{bit_and-mask, bit_and-two-pow, bit_or-low, bit_or_comm, two-pow-suc}
use mathlib.Core.Path.{ap₂}
use native.Mathlib.Nat.{mod-eq_of_lt, pow-suc}
use async_profiler.Dwarf.{word_mod, get_leb_from, get_leb}
use async_profiler.ProtoBuffer.VarInt.{groups}

-- The bytes stand in the memory from the place on.
abbrev pub Holds : (ℕ → ℕ) → ℕ → List ℕ → Type 0
Holds memory ptr [] = Unit
Holds memory ptr (x ∷ xs) = (memory ptr ≡ x) × Holds memory (ptr + 1) xs

seven_more : (shift : ℕ) → 2 ^ (shift + 7) ≡ 128 * 2 ^ shift
seven_more shift =
    let e : shift + 7 ≡ suc (suc (suc (suc (suc (suc (suc shift)))))) = omega arith in
    rw e (
      omega (
        arith,
        two-pow-suc shift,
        two-pow-suc (suc shift),
        two-pow-suc (suc (suc shift)),
        two-pow-suc (suc (suc (suc shift))),
        two-pow-suc (suc (suc (suc (suc shift)))),
        two-pow-suc (suc (suc (suc (suc (suc shift))))),
        two-pow-suc (suc (suc (suc (suc (suc (suc shift)))))),
      ))

-- The top bit of a byte says whether another one follows.
last_byte : (x : ℕ) → x < 128 → (bit_and x 0x80 == 0) ≡ true
last_byte x h = ground (arith, bit_and-two-pow 7 x)

more_bytes : (x : ℕ) → x < 128 → (bit_and (x + 128) 0x80 == 0) ≡ false
more_bytes x h = ground (arith, bit_and-two-pow 7 (x + 128))

-- A group of seven bits lands above the bits so far.
group_placed :
    (shift r x : ℕ)
    → r < 2 ^ shift
    → r + x % 128 * 2 ^ shift < word_mod
    → bit_or r (bit_and x 0x7f * 2 ^ shift % word_mod) ≡ r + x % 128 * 2 ^ shift
group_placed shift r x low fits =
    let fit : x % 128 * 2 ^ shift % word_mod ≡ x % 128 * 2 ^ shift = mod-eq_of_lt (omega arith) in
    rw (bit_and-mask 7 x, fit, bit_or_comm r (x % 128 * 2 ^ shift))
      (omega (arith, bit_or-low shift (x % 128) r low))

module _ (memory : ℕ → ℕ) (fuel shift r ptr x : ℕ) where
  leb_last :
      memory ptr ≡ x
      → x < 128
      → r < 2 ^ shift
      → r + x * 2 ^ shift < word_mod
      → get_leb_from memory (suc fuel) shift r ptr ≡ some (r + x * 2 ^ shift, ptr + 1)
  unfolding get_leb_from
  leb_last e h low fits =
      let same : x % 128 ≡ x = omega arith in
      let fits' : r + x % 128 * 2 ^ shift < word_mod =
        subst (λ y. r + y * 2 ^ shift < word_mod) (sym same) fits in
      rw (e, last_byte x h)
        (ap (λ (v : ℕ). some (v, ptr + 1))
          (group_placed shift r x low fits' ∙ ap (λ (y : ℕ). r + y * 2 ^ shift) same))

  leb_more :
      memory ptr ≡ x + 128
      → x < 128
      → r < 2 ^ shift
      → r + x * 2 ^ shift < word_mod
      → get_leb_from memory (suc fuel) shift r ptr
        ≡ get_leb_from memory fuel (shift + 7) (r + x * 2 ^ shift) (ptr + 1)
  unfolding get_leb_from
  leb_more e h low fits =
      let same : (x + 128) % 128 ≡ x = omega arith in
      let fits' : r + (x + 128) % 128 * 2 ^ shift < word_mod =
        subst (λ y. r + y * 2 ^ shift < word_mod) (sym same) fits in
      rw (e, more_bytes x h)
        (ap (λ (v : ℕ). get_leb_from memory fuel (shift + 7) v (ptr + 1))
          (group_placed shift r (x + 128) low fits' ∙ ap (λ (y : ℕ). r + y * 2 ^ shift) same))

groups_last : (f n : ℕ) → (n / 128 == 0) ≡ true → groups (suc f) n ≡ n ∷ []
unfolding groups
groups_last f n e = rw e

groups_more :
    (f n : ℕ) → (n / 128 == 0) ≡ false → groups (suc f) n ≡ (n % 128 + 128) ∷ groups f (n / 128)
unfolding groups
groups_more f n e = rw e

-- The bits of the lowest group, and those above it.
split_bits : (n c : ℕ) → n % 128 * c + n / 128 * (128 * c) ≡ n * c
split_bits n c =
    let e : n % 128 + n / 128 * 128 ≡ n = omega arith in grind (arith, ap (λ (m : ℕ). m * c) e)

low_below : (x c r : ℕ) → x < 128 → r < c → r + x * c < 128 * c
low_below x c r h low =
    let y : ℕ = 127 - x in
    let sum : x + y ≡ 127 = omega arith in
    let parts : x * c + y * c ≡ 127 * c = grind (arith, ap (λ (m : ℕ). m * c) sum) in omega arith

get_leb_from-groups :
    (f n shift r ptr : ℕ) (memory : ℕ → ℕ)
    → n < 128 ^ suc f
    → r < 2 ^ shift
    → r + n * 2 ^ shift < word_mod
    → Holds memory ptr (groups f n)
    → get_leb_from memory (suc f) shift r ptr ≡ some (r + n * 2 ^ shift, ptr + length (groups f n))
unfolding groups
get_leb_from-groups zero n shift r ptr memory small low fits (e, _) =
    leb_last memory 0 shift r ptr n e (omega arith) low fits
get_leb_from-groups (suc f) n shift r ptr memory small low fits h =
    elim (Bool-cases (n / 128 == 0)) [
      | inl last ↦
          let g = groups_last f n last in
          let at : Holds memory ptr (n ∷ []) = subst (Holds memory ptr) g h in
          leb_last memory (suc f) shift r ptr n at.0 (ground arith) low fits
          ∙ ap (λ (xs : List ℕ). some (r + n * 2 ^ shift, ptr + length xs)) (sym g)
      | inr more ↦
          let g = groups_more f n more in
          let at : Holds memory ptr ((n % 128 + 128) ∷ groups f (n / 128)) =
            subst (Holds memory ptr) g h in
          let x : ℕ = n % 128 in
          let c : ℕ = 2 ^ shift in
          let whole : r + x * c + n / 128 * 2 ^ (shift + 7) ≡ r + n * c =
            omega (arith, split_bits n c, ap (λ (d : ℕ). n / 128 * d) (seven_more shift)) in
          leb_more memory (suc f) shift r ptr x at.0 (omega arith) low (omega (arith, whole))
          ∙ get_leb_from-groups f (n / 128) (shift + 7) (r + x * c) (ptr + 1) memory
              (omega (arith, pow-suc 128 (suc f)))
              (omega (arith, seven_more shift, low_below x c r (omega arith) low))
              (omega (arith, whole)) at.1
          ∙ ap₂ (λ (v k : ℕ). some (v, k)) whole (omega (arith, ap length g))
    ]

-- From a place that holds the encoding of a 32-bit number, `getLeb` reads that number and stops
-- behind the last byte of the encoding; five rounds are enough.
pub get_leb-groups :
    (n ptr : ℕ) (memory : ℕ → ℕ)
    → n < word_mod
    → Holds memory ptr (groups 4 n)
    → get_leb memory 5 ptr ≡ some (n, ptr + length (groups 4 n))
unfolding get_leb
get_leb-groups n ptr memory h held =
    get_leb_from-groups 4 n 0 0 ptr memory (omega arith) (omega arith) (omega arith) held
    ∙ ap (λ (v : ℕ). some (v, ptr + length (groups 4 n))) (omega arith)
