-- ===== src/ThreadFilter/Members.antt =====
-- The set that src/threadFilter.cpp keeps: what `add`, `remove` and `clear` do to `accept` and `size`.
use async_profiler.Base.{
  ℕ, ◌+◌, ◌-◌, ◌/◌, ◌%◌, ◌^◌, ◌≡◌, refl, false, not, ◌&&◌, ◌||◌, Option, none, some, if◌then◌else◌,
  ◌==◌, arith, ap, ◌∙◌, sym, inl, inr, Option-cases, Bool-cases, ==_iff,
}
use async_profiler.Base.Bits.{bit, bit-bit_and, bit_and-two-pow, two-pow_pos, zero-bit_and}
use async_profiler.Os.{Os}
use async_profiler.ThreadFilter.{
  ThreadFilter, Bitmap, bitmap_size, bitmap_capacity, bitmap_of, accept_in, accept, add_in,
  remove_in, remove, clear, cleared, add, add_at, mapped, zeros,
}
use async_profiler.ThreadFilter.Bits.{
  accept_in-present, Stands, with_bit, without_bit, accept-with_bit, accept-without_bit,
  accept-resized, old_bit,
}

-- The set after an addition, and its count.
abbrev pub Adds : ThreadFilter → ℕ → ThreadFilter → Type 0
Adds f id g =
    ((j : ℕ) → accept g j ≡ ((id == j) || accept f j))
    × (g.size ≡ (if accept f id then f.size else f.size + 1))

add_in-Adds : (f : ThreadFilter) (b : Bitmap) (id : ℕ) → Stands f b id → Adds f id (add_in f b id)
unfolding add_in
add_in-Adds f b id h = elim (Bool-cases (accept f id)) [
  | inl old ↦ rw (old_bit f b id h, old) ((λ j. accept-with_bit f b id j h), refl)
  | inr new ↦
      rw (old_bit f b id h, new)
        ((λ j. accept-resized (with_bit f b id) (f.size + 1) j ∙ accept-with_bit f b id j h), refl)
]

mapped-Stands : (f : ThreadFilter) (b : Bitmap) (id : ℕ) → bitmap_of f id ≡ some b → Stands f b id
unfolding accept
mapped-Stands f b id e j p =
    let e' : f.bitmaps (j / bitmap_capacity) ≡ some b = ap f.bitmaps (sym p) ∙ e in
    ap (λ o. accept_in o j) e' ∙ accept_in-present b j

zero_bit : (k : ℕ) → bit k 0 ≡ 0
zero_bit k =
    omega (arith, bit-bit_and k 0 0, bit_and-two-pow k 0, zero-bit_and (2 ^ k), two-pow_pos k)

fresh-Stands : (f : ThreadFilter) (id : ℕ) → bitmap_of f id ≡ none → Stands f zeros id
unfolding accept accept_in
fresh-Stands f id e j p =
    let e' : f.bitmaps (j / bitmap_capacity) ≡ none = ap f.bitmaps (sym p) ∙ e in
    ap (λ o. accept_in o j) e' ∙ ground (arith, zero_bit (j % 32))

-- The set after a removal, and its count.
abbrev pub Removes : ThreadFilter → ℕ → ThreadFilter → Type 0
Removes f id g =
    ((j : ℕ) → accept g j ≡ (not (id == j) && accept f j))
    × (g.size ≡ (if accept f id then f.size - 1 else f.size))

remove_in-Removes :
    (f : ThreadFilter) (b : Bitmap) (id : ℕ)
    → Stands f b id
    → Removes f id (remove_in f (some b) id)
unfolding remove_in
remove_in-Removes f b id h = elim (Bool-cases (accept f id)) [
  | inl old ↦
      rw (old_bit f b id h, old)
        (
          (λ j. accept-resized (without_bit f b id) (f.size - 1) j ∙ accept-without_bit f b id j h),
          refl,
        )
  | inr new ↦ rw (old_bit f b id h, new) ((λ j. accept-without_bit f b id j h), refl)
]

absent : (f : ThreadFilter) (id j : ℕ) → bitmap_of f id ≡ none → id ≡ j → accept f j ≡ false
unfolding accept accept_in
absent f id j e p = ap (λ o. accept_in o j) (ap (λ k. f.bitmaps (k / bitmap_capacity)) (sym p) ∙ e)

remove_absent : (f : ThreadFilter) (id : ℕ) → bitmap_of f id ≡ none → Removes f id f
remove_absent f id e = (
  λ j. elim (Bool-cases (id == j)) [
    | inl same ↦ rw same (absent f id j e ((==_iff id j).0 same))
    | inr other ↦ rw other
  ],
  rw (absent f id id e refl),
)

-- `remove` takes exactly this thread out of the set, and lowers the size if it was in.
pub remove-Removes : (f : ThreadFilter) (id : ℕ) → Removes f id (remove f id)
unfolding remove
remove-Removes f id = elim (Option-cases (bitmap_of f id)) [
  | inl e ↦ rw e (unfold remove_in in remove_absent f id e)
  | inr (b, e) ↦ rw e (remove_in-Removes f b id (mapped-Stands f b id e))
]

-- `clear` empties the set and the count.
pub clear-empty : (f : ThreadFilter) → ((j : ℕ) → accept (clear f) j ≡ false) × ((clear f).size ≡ 0)
unfolding accept clear
clear-empty f = (λ j. gone (bitmap_of f j) j, refl)
  where
    gone : (o : Option Bitmap) (j : ℕ) → accept_in (cleared o) j ≡ false
    gone none j = refl
    gone (some b) j = accept_in-present zeros j ∙ ground (arith, zero_bit (j % 32))

module _ (os : Os) where
  open os use {State, safe_alloc}

  -- What `add` comes to: the thread was added, or the bitmap of the id was null and the system
  -- refused to map one, and a null bitmap was written through.
  abbrev pub AddsOrFaults : ThreadFilter → ℕ → State → Option (ThreadFilter × State) → Type 0
  AddsOrFaults f id s none = (bitmap_of f id ≡ none) × ((safe_alloc s bitmap_size).0 ≡ none)
  AddsOrFaults f id s (some (g, s')) = Adds f id g

  fresh_add :
      (f : ThreadFilter) (id : ℕ) (s s' : State) (p : Option ℕ)
      → (safe_alloc s bitmap_size).0 ≡ p
      → bitmap_of f id ≡ none
      → AddsOrFaults f id s (elim (mapped os p) [ none ↦ none | some b ↦ some (add_in f b id, s') ])
  fresh_add f id s s' none r e = (e, r)
  fresh_add f id s s' (some q) r e = add_in-Adds f zeros id (fresh-Stands f id e)

  add_at-Adds :
      (f : ThreadFilter) (id : ℕ) (s : State) (o : Option Bitmap)
      → bitmap_of f id ≡ o
      → AddsOrFaults f id s (add_at os f id s o)
  unfolding add_at
  add_at-Adds f id s none e =
      fresh_add f id s (safe_alloc s bitmap_size).1 (safe_alloc s bitmap_size).0 refl e
  add_at-Adds f id s (some b) e = add_in-Adds f b id (mapped-Stands f b id e)

  -- `add` puts exactly this thread into the set, and raises the size if it was not in, or else
  -- writes through a null bitmap: that happens only if the bitmap of the id was not mapped and the
  -- system refuses to map it.
  pub add-Adds : (f : ThreadFilter) (id : ℕ) (s : State) → AddsOrFaults f id s (add os f id s)
  unfolding add
  add-Adds f id s = add_at-Adds f id s (bitmap_of f id) refl
