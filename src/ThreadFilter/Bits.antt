-- ===== src/ThreadFilter/Bits.antt =====
-- The bits of src/threadFilter.cpp: what a word with one bit changed answers to `accept`.
use async_profiler.Base.{
  ℕ, ◌-◌, ◌/◌, ◌%◌, ◌^◌, ◌<◌, ◌≡◌, refl, Bool, true, false, not, ◌&&◌, ◌||◌, some, if◌then◌else◌,
  ◌==◌, bit_and, bit_or, arith, ap, ◌∙◌, sym, subst, inl, inr, Bool-cases, ==_iff, every_below,
  every_below_sound,
}
use async_profiler.Base.Bits.{
  bit, bit-bit_or, bit-bit_and, bit-two-pow_self, bit-two-pow_ne, bit_and-mask, bit_and-two-pow,
  two-pow_pos,
}
use async_profiler.ThreadFilter.{
  ThreadFilter, Bitmap, bitmap_capacity, word_index, bit_of, set_word, set_bitmap, accept_in,
  accept, complement,
}

-- The bit of a thread in its word.
abbrev digit_of : ℕ → ℕ
digit_of id = id % 32

bit_of_lem : (id : ℕ) → bit_of id ≡ 2 ^ digit_of id
unfolding bit_of
bit_of_lem id = ap (λ (k : ℕ). 2 ^ k) (bit_and-mask 5 id)

bits_table :
    every_below
      (λ j. every_below (λ k. bit j (2 ^ 32 - 1 - 2 ^ k) == (if j == k then 0 else 1)) 32)
      32
    ≡ true
unfolding every_below
bits_table = refl

bit-complement :
    (j k : ℕ) → j < 32 → k < 32 → bit j (complement (2 ^ k)) ≡ (if j == k then 0 else 1)
unfolding complement
bit-complement j k h l =
    (==_iff _ _).0 (every_below_sound _ 32 (every_below_sound _ 32 bits_table j h) k l)

-- A bitmap has a thread's bit.
abbrev present : Bitmap → ℕ → Bool
present b id = bit (id % 32) (b (word_index id)) == 1

tested : (k w : ℕ) → (bit_and w (2 ^ k) == 0) ≡ not (bit k w == 1)
tested k w = ground (arith, bit_and-two-pow k w, two-pow_pos k)

pub accept_in-present : (b : Bitmap) (id : ℕ) → accept_in (some b) id ≡ present b id
unfolding accept_in
accept_in-present b id =
    rw (bit_of_lem id) (ground (arith, tested (digit_of id) (b (word_index id))))

-- A bitmap that stands for the part of the set that a thread's id falls into.
abbrev pub Stands : ThreadFilter → Bitmap → ℕ → Type 0
Stands f b id = (j : ℕ) → id / bitmap_capacity ≡ j / bitmap_capacity → accept f j ≡ present b j

accept-set :
    (f : ThreadFilter) (b : Bitmap) (id w j : ℕ)
    → Stands f b id
    → accept (set_bitmap f id (set_word b (word_index id) w)) j ≡ (
        if id / bitmap_capacity == j / bitmap_capacity
        then (if word_index id == word_index j then bit (j % 32) w == 1 else present b j)
        else accept f j)
unfolding accept
accept-set f b id w j h = elim (Bool-cases (id / bitmap_capacity == j / bitmap_capacity)) [
  | inl same ↦ rw same (accept_in-present (set_word b (word_index id) w) j ∙ ground arith)
  | inr other ↦ rw other
]

same_place :
    (id j : ℕ)
    → id / bitmap_capacity ≡ j / bitmap_capacity
    → word_index id ≡ word_index j
    → id % 32 ≡ j % 32
    → id ≡ j
unfolding word_index
same_place id j p q r = omega arith

bit_or_digit : (w i j : ℕ) → (bit j (bit_or w (2 ^ i)) == 1) ≡ ((i == j) || (bit j w == 1))
bit_or_digit w i j = elim (Bool-cases (i == j)) [
  | inl same ↦
      let e : i ≡ j = (==_iff i j).0 same in
      rw same (
        subst (λ k. (bit k (bit_or w (2 ^ i)) == 1) ≡ true) e
          (ground (arith, bit-bit_or i w (2 ^ i), bit-two-pow_self i)))
  | inr other ↦ rw other (
      ground (arith, bit-bit_or j w (2 ^ i), bit-two-pow_ne j i (λ e. absurd_eq i j other (sym e))))
]
  where
    absurd_eq : (x y : ℕ) → (x == y) ≡ false → x ≡ y → ⊥
    absurd_eq x y o e = ground arith

place_eq :
    (id j : ℕ)
    → (id == j) ≡ (
        (id / bitmap_capacity == j / bitmap_capacity)
        && ((word_index id == word_index j) && (id % 32 == j % 32)))
place_eq id j = ground (arith, same_place id j)

-- A write that turns the word's bits by `turn` turns the set by `turn`.
turned :
    (f : ThreadFilter) (b : Bitmap) (id j w : ℕ) (turn : Bool → Bool → Bool)
    → Stands f b id
    → ((x : Bool) → turn false x ≡ x)
    → ((d : ℕ) → d < 32 → (bit d w == 1) ≡ turn (id % 32 == d) (bit d (b (word_index id)) == 1))
    → accept (set_bitmap f id (set_word b (word_index id) w)) j ≡ turn (id == j) (accept f j)
turned f b id j w turn h off bits =
    elim (Bool-cases (id / bitmap_capacity == j / bitmap_capacity)) [
      | inr far ↦ accept-set f b id w j h ∙ rw (place_eq id j, far) (sym (off (accept f j)))
      | inl near ↦
          let here = h j ((==_iff _ _).0 near) in
          elim (Bool-cases (word_index id == word_index j)) [
            | inr apart ↦
                accept-set f b id w j h
                ∙ rw (place_eq id j, near, apart, here) (sym (off (present b j)))
            | inl same ↦
                let e : word_index id ≡ word_index j = (==_iff _ _).0 same in
                accept-set f b id w j h
                ∙ rw (place_eq id j, near, same, here)
                    (subst
                      (λ k.
                        (bit (j % 32) w == 1) ≡ turn (id % 32 == j % 32) (bit (j % 32) (b k) == 1))
                      e (bits (j % 32) (omega arith)))
          ]
    ]

bit_and_digit :
    (w i j : ℕ)
    → i < 32
    → j < 32
    → (bit j (bit_and w (complement (2 ^ i))) == 1) ≡ (not (i == j) && (bit j w == 1))
bit_and_digit w i j h l =
    ground (arith, bit-bit_and j w (complement (2 ^ i)), bit-complement j i l h)

abbrev pub with_bit : ThreadFilter → Bitmap → ℕ → ThreadFilter
with_bit f b id =
    set_bitmap f id (set_word b (word_index id) (bit_or (b (word_index id)) (bit_of id)))

abbrev pub without_bit : ThreadFilter → Bitmap → ℕ → ThreadFilter
without_bit f b id =
    set_bitmap f id
      (set_word b (word_index id) (bit_and (b (word_index id)) (complement (bit_of id))))

pub accept-with_bit :
    (f : ThreadFilter) (b : Bitmap) (id j : ℕ)
    → Stands f b id
    → accept (with_bit f b id) j ≡ ((id == j) || accept f j)
accept-with_bit f b id j h =
    turned f b id j _ (λ x y. x || y) h (λ x. refl)
      (λ d l. rw (bit_of_lem id) (bit_or_digit (b (word_index id)) (id % 32) d))

pub accept-without_bit :
    (f : ThreadFilter) (b : Bitmap) (id j : ℕ)
    → Stands f b id
    → accept (without_bit f b id) j ≡ (not (id == j) && accept f j)
accept-without_bit f b id j h =
    turned f b id j _ (λ x y. not x && y) h (λ x. refl)
      (λ d l. rw (bit_of_lem id) (bit_and_digit (b (word_index id)) (id % 32) d (omega arith) l))

-- Resizing does not touch the set.
pub accept-resized : (f : ThreadFilter) (n j : ℕ) → accept (record f { size = n }) j ≡ accept f j
unfolding accept
accept-resized f n j = refl

pub old_bit :
    (f : ThreadFilter) (b : Bitmap) (id : ℕ)
    → Stands f b id
    → (bit_and (b (word_index id)) (bit_of id) == 0) ≡ not (accept f id)
old_bit f b id h = rw (h id refl, bit_of_lem id) (tested (id % 32) (b (word_index id)))
