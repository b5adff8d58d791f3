-- ===== src/ThreadFilter.antt =====
-- src/threadFilter.cpp and src/threadFilter.h: a set of thread ids as bitmaps that are mapped on
-- demand. Run by one thread, so that each CAS succeeds. A thread id is the 32-bit value of the
-- `int`; the ids of threads are below 2 ^ 31. The bitmap of a negative id, past the end of the array,
-- is not modelled. A write through a null bitmap is a fault, `none`.
pub mod Init
mod Bits
mod Consuming
pub mod Filtering
pub mod Members
mod Tests
use async_profiler.Base.{
  ℕ, zero, suc, ◌+◌, ◌-◌, ◌*◌, ◌/◌, ◌%◌, ◌^◌, Bool, true, false, not, ◌&&◌, List, [], ◌∷◌, ◌++◌,
  Option, none, some, if◌then◌else◌, ltb, ◌==◌, bit_and, bit_or, ◌>>=◌,
}
use async_profiler.Os.{Os}

abbrev pub bitmap_size : ℕ
bitmap_size = 65536

abbrev pub bitmap_capacity : ℕ
bitmap_capacity = bitmap_size * 8

abbrev pub max_bitmaps : ℕ
max_bitmaps = 2 ^ 31 / bitmap_capacity

-- A mapped bitmap is a function from word numbers to 32-bit words.
abbrev pub Bitmap : Type 0
Bitmap = ℕ → ℕ

pub record ThreadFilter : Type 0 where
  pub bitmaps : ℕ → Option Bitmap
  pub enabled : Bool
  pub size : ℕ

abbrev pub zeros : Bitmap
zeros _ = 0

-- `bitmap(thread_id)`
abbrev pub bitmap_of : ThreadFilter → ℕ → Option Bitmap
bitmap_of f id = f.bitmaps (id / bitmap_capacity)

-- The number of the word that holds a thread's bit.
unfoldable pub word_index : ℕ → ℕ
word_index id = id % bitmap_capacity / 2 ^ 5

-- `1 << (thread_id & 0x1f)`
unfoldable pub bit_of : ℕ → ℕ
bit_of id = 2 ^ bit_and id 0x1f

abbrev pub set_word : Bitmap → ℕ → ℕ → Bitmap
set_word b i v j = if i == j then v else b j

abbrev pub set_bitmap : ThreadFilter → ℕ → Bitmap → ThreadFilter
set_bitmap f id b = record f {
  bitmaps = λ j. if id / bitmap_capacity == j then some b else f.bitmaps j;
}

unfoldable pub accept_in : Option Bitmap → ℕ → Bool
accept_in none id = false
accept_in (some b) id = not (bit_and (b (word_index id)) (bit_of id) == 0)

unfoldable pub accept : ThreadFilter → ℕ → Bool
unfolding accept_in
accept f id = accept_in (bitmap_of f id) id

-- `~bit`, in 32 bits.
unfoldable pub complement : ℕ → ℕ
complement bit = 2 ^ 32 - 1 - bit

-- The fetch-and-or and the count of `add`, on a bitmap that is there.
unfoldable pub add_in : ThreadFilter → Bitmap → ℕ → ThreadFilter
add_in f b id =
    let word = b (word_index id) in
    let g = set_bitmap f id (set_word b (word_index id) (bit_or word (bit_of id))) in
    if bit_and word (bit_of id) == 0 then record g { size = f.size + 1 } else g

-- `atomicDec(_size)`: `_size` counts the set bits, so that it is not 0 here.
unfoldable pub remove_in : ThreadFilter → Option Bitmap → ℕ → ThreadFilter
remove_in f none id = f
remove_in f (some b) id =
    let word = b (word_index id) in
    let g = set_bitmap f id (set_word b (word_index id) (bit_and word (complement (bit_of id)))) in
    if bit_and word (bit_of id) == 0 then g else record g { size = f.size - 1 }

unfoldable pub remove : ThreadFilter → ℕ → ThreadFilter
unfolding remove_in
remove f id = remove_in f (bitmap_of f id) id

abbrev pub cleared : Option Bitmap → Option Bitmap
cleared none = none
cleared (some b) = some zeros

unfoldable pub clear : ThreadFilter → ThreadFilter
clear f = record f { bitmaps = λ i. cleared (f.bitmaps i); size = 0 }

abbrev pub is_mapped : Option Bitmap → Bool
is_mapped none = false
is_mapped (some _) = true

-- The loop of `usedMemory`, with the count of bitmaps left.
unfoldable pub used_from : ℕ → ℕ → ThreadFilter → ℕ → ℕ
used_from zero i f bytes = bytes
used_from (suc left) i f bytes =
    used_from left (i + 1) f (if is_mapped (f.bitmaps i) then bytes + bitmap_size else bytes)

unfoldable pub used_memory : ThreadFilter → ℕ
used_memory f = used_from max_bitmaps 0 f 0

-- The loops of `collect`: over the bits of a word, the words of a bitmap, and the bitmaps.
unfoldable pub collect_bits : ℕ → ℕ → ℕ → ℕ → List ℕ
collect_bits zero bit word base = []
collect_bits (suc left) bit word base =
    let rest = collect_bits left (bit + 1) word base in
    if bit_and word (2 ^ bit) == 0 then rest else (base + bit) ∷ rest

unfoldable pub collect_words : ℕ → ℕ → Bitmap → ℕ → List ℕ
unfolding collect_bits
collect_words zero j b start_id = []
collect_words (suc left) j b start_id =
    let rest = collect_words left (j + 1) b start_id in
    if b j == 0 then rest else collect_bits 32 0 (b j) (start_id + j * 32) ++ rest

unfoldable pub collect_from : ℕ → ℕ → ThreadFilter → List ℕ
unfolding collect_words
collect_from zero i f = []
collect_from (suc left) i f =
    let rest = collect_from left (i + 1) f in
    elim (f.bitmaps i) [
      | none ↦ rest
      | some b ↦ collect_words (bitmap_size / 4) 0 b (i * bitmap_capacity) ++ rest
    ]

unfoldable pub collect : ThreadFilter → List ℕ
collect f = collect_from max_bitmaps 0 f

module _ (os : Os) where
  open os use {State, safe_alloc, safe_free}

  abbrev pub mapped : Option ℕ → Option Bitmap
  mapped none = none
  mapped (some _) = some zeros

  -- The constructor maps the first bitmap; it may come out null.
  unfoldable pub new : State → ThreadFilter × State
  new s =
      let (p, s') = safe_alloc s bitmap_size in
      (record { bitmaps = λ i. if i == 0 then mapped p else none; enabled = false; size = 0 }, s')

  -- `add` on a bitmap that may have to be mapped first.
  unfoldable pub add_at : ThreadFilter → ℕ → State → Option Bitmap → Option (ThreadFilter × State)
  add_at f id s (some b) = some (add_in f b id, s)
  add_at f id s none =
      let (p, s') = safe_alloc s bitmap_size in
      elim (mapped p) [ none ↦ none | some b ↦ some (add_in f b id, s') ]

  unfoldable pub add : ThreadFilter → ℕ → State → Option (ThreadFilter × State)
  add f id s = add_at f id s (bitmap_of f id)
