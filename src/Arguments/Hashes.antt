-- ===== src/Arguments/Hashes.antt =====
-- What the hash of src/arguments.cpp keeps of a name.
use async_profiler.Base.{
  ℕ, zero, suc, ◌+◌, ◌*◌, ◌%◌, ◌^◌, ◌≡◌, ◌≤◌, ◌<◌, refl, sym, ◌∙◌, ap, arith, Bool, true, List, [],
  ◌∷◌, ◌==◌, leb, not, length, map, bit_or, ◌&&◌,
}
use async_profiler.Base.Bits.{two-pow-suc, bit_and-mask, bit_or-low, bit_or_comm}
use mathlib.Core.Path.{ap₂}
use native.Mathlib.Nat.{
  add-mul, mul_assoc, mul_left_comm, mul-le-mul_right, one-le-pow, pow-suc, mod-eq_of_lt,
}
use async_profiler.Base.Texts.{Text}
use async_profiler.Arguments.Names.{hash_from, hash}

-- What the hash keeps of a character.
abbrev pub low_bits : ℕ → ℕ
low_bits c = c % 32

abbrev pub has_bits : Text → Bool
has_bits [] = true
has_bits (c ∷ cs) = not (c % 32 == 0) && has_bits cs

-- A name of at most twelve characters, none of which has its five low bits clear.
abbrev pub IsShort : Text → Type 0
IsShort s = (leb (length s) 12 && has_bits s) ≡ true

-- The number whose digits are the five-bit characters, the first one lowest.
abbrev value_of : List ℕ → ℕ
value_of [] = 0
value_of (d ∷ ds) = d + 32 * value_of ds

five_more : (shift : ℕ) → 2 ^ (shift + 5) ≡ 32 * 2 ^ shift
five_more shift =
    let e : shift + 5 ≡ suc (suc (suc (suc (suc shift)))) = omega arith in
    rw e (
      omega (
        arith,
        two-pow-suc shift,
        two-pow-suc (suc shift),
        two-pow-suc (suc (suc shift)),
        two-pow-suc (suc (suc (suc shift))),
        two-pow-suc (suc (suc (suc (suc shift)))),
      ))

-- The hash as a function of the five low bits of the characters.
abbrev pub hash_of_bits : ℕ → ℕ → List ℕ → ℕ
hash_of_bits shift h [] = h
hash_of_bits shift h (d ∷ ds) = hash_of_bits (shift + 5) (bit_or h (d * 2 ^ shift % 2 ^ 64)) ds

pub hash_from_low :
    (shift h : ℕ) (s : Text) → hash_from shift h s ≡ hash_of_bits shift h (map low_bits s)
unfolding hash_from
hash_from_low shift h [] = refl
hash_from_low shift h (c ∷ cs) =
    ap (λ (d : ℕ). hash_from (shift + 5) (bit_or h (d * 2 ^ shift % 2 ^ 64)) cs) (bit_and-mask 5 c)
    ∙ hash_from_low (shift + 5) (bit_or h (c % 32 * 2 ^ shift % 2 ^ 64)) cs

-- A digit goes in above the bits so far, as long as the word has room.
digit_placed :
    (shift h d v : ℕ)
    → h < 2 ^ shift
    → h + (d + 32 * v) * 2 ^ shift < 2 ^ 64
    → bit_or h (d * 2 ^ shift % 2 ^ 64) ≡ d * 2 ^ shift + h
digit_placed shift h d v low fits =
    let fit : d * 2 ^ shift % 2 ^ 64 ≡ d * 2 ^ shift =
      mod-eq_of_lt (omega (arith, add-mul d (32 * v) (2 ^ shift))) in
    rw (fit, bit_or_comm h (d * 2 ^ shift)) (bit_or-low shift d h low)

hash_of_bits-value :
    (shift h : ℕ) (s : Text)
    → h < 2 ^ shift
    → h + value_of (map low_bits s) * 2 ^ shift < 2 ^ 64
    → hash_of_bits shift h (map low_bits s) ≡ h + value_of (map low_bits s) * 2 ^ shift
hash_of_bits-value shift h [] low fits = omega arith
hash_of_bits-value shift h (c ∷ cs) low fits =
    let v : ℕ = value_of (map low_bits cs) in
    let d : ℕ = low_bits c in
    let more = five_more shift in
    let spread : (d + 32 * v) * 2 ^ shift ≡ d * 2 ^ shift + v * 2 ^ (shift + 5) =
      add-mul d (32 * v) (2 ^ shift)
      ∙ omega (
        arith,
        mul_assoc 32 v (2 ^ shift),
        ap (λ (x : ℕ). v * x) more,
        mul_left_comm v 32 (2 ^ shift),
      ) in
    let small : d * 2 ^ shift ≤ 31 * 2 ^ shift = mul-le-mul_right (2 ^ shift) (omega arith) in
    let next : ℕ = d * 2 ^ shift + h in
    ap (λ (x : ℕ). hash_of_bits (shift + 5) x (map low_bits cs)) (digit_placed shift h d v low fits)
    ∙ hash_of_bits-value (shift + 5) next cs (omega arith) (omega arith)
    ∙ omega arith

value_of_lt : (n : ℕ) (s : Text) → length s ≤ n → value_of (map low_bits s) < 32 ^ n
value_of_lt n [] h = one-le-pow n 32 (omega arith)
value_of_lt zero (c ∷ cs) h = absurd (omega arith)
value_of_lt (suc n) (c ∷ cs) h = omega (arith, value_of_lt n cs (omega arith), pow-suc 32 n)

value_of_same :
    (a b : Text)
    → has_bits a ≡ true
    → has_bits b ≡ true
    → value_of (map low_bits a) ≡ value_of (map low_bits b)
    → map low_bits a ≡ map low_bits b
value_of_same [] [] ha hb e = refl
value_of_same [] (y ∷ ys) ha hb e = ground arith
value_of_same (x ∷ xs) [] ha hb e = ground arith
value_of_same (x ∷ xs) (y ∷ ys) ha hb e =
    let both : (x % 32 ≡ y % 32) × (value_of (map low_bits xs) ≡ value_of (map low_bits ys)) =
      (omega arith, omega arith) in
    ap₂ (λ (d : ℕ) (ds : List ℕ). d ∷ ds) both.0
      (value_of_same xs ys (ground arith) (ground arith) both.1)

-- Short names with one hash agree in the five low bits of their characters.
hash-value : (s : Text) → IsShort s → hash s ≡ value_of (map low_bits s)
unfolding hash
hash-value s short =
    hash_from_low 0 0 s
    ∙ hash_of_bits-value 0 0 s (omega arith) (omega (arith, value_of_lt 12 s (ground arith)))
    ∙ omega arith

pub hash_same :
    (a b : Text) → IsShort a → IsShort b → hash a ≡ hash b → map low_bits a ≡ map low_bits b
hash_same a b short_a short_b e =
    value_of_same a b (ground arith) (ground arith)
      (sym (hash-value a short_a) ∙ e ∙ hash-value b short_b)
