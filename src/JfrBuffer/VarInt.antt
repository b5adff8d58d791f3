-- ===== src/JfrBuffer/VarInt.antt =====
-- The compressed integers of the JFR format that class Buffer of src/flightRecorder.cpp writes, and a
-- reader of them.
use async_profiler.Base.{
  ℕ, zero, suc, ◌+◌, ◌-◌, ◌*◌, ◌/◌, ◌%◌, ◌^◌, ◌≤◌, ◌<◌, ◌≡◌, refl, ◌∙◌, arith, true, false, List,
  [], ◌∷◌, ◌++◌, Option, none, some, if◌then◌else◌, ltb, bit_or, if_cases,
}
use mathlib.Core.List.{append_assoc}
use async_profiler.Base.Bits.{bit_or-top}
use async_profiler.JfrBuffer.{
  Buffer, put8, put_more, put_groups, put_var32, put_three, put_long, put_var64,
}

-- A reader of compressed integers, with the bytes that may still come: seven bits in each, the lowest
-- first, and a top bit for more; the last possible byte, the ninth, has eight.
abbrev pub read_groups : ℕ → List ℕ → Option (ℕ × List ℕ)
read_groups n [] = none
read_groups zero (x ∷ xs) = some (x, xs)
read_groups (suc n) (x ∷ xs) =
    if ltb x 128
    then some (x, xs)
    else elim (read_groups n xs) [ none ↦ none | some (v, rest) ↦ some (x - 128 + 128 * v, rest) ]

-- What was written behind a buffer reads as the value.
abbrev pub Reads : ℕ → ℕ → Buffer → Buffer → Type 0
Reads n v b after =
    (bytes : List ℕ) × (after ≡ b ++ bytes)
    × ((rest : List ℕ) → read_groups n (bytes ++ rest) ≡ some (v, rest))

more_byte : (v : ℕ) → bit_or 0x80 v % 256 ≡ v % 128 + 128
more_byte v = bit_or-top 7 v

Reads-put8 : (n v : ℕ) (b : Buffer) → v < 128 → Reads n v b (put8 v b)
unfolding put8
Reads-put8 zero v b h =
    let low : v % 256 ≡ v = omega arith in (v % 256 ∷ [], refl, λ rest. rw low refl)
Reads-put8 (suc n) v b h =
    let low : v % 256 ≡ v = omega arith in
    let small : ltb v 128 ≡ true = ground arith in
    (v % 256 ∷ [], refl, λ rest. rw (low, small) refl)

join : (w v : ℕ) → w ≡ v % 128 + 128 → w - 128 + 128 * (v / 2 ^ 7) ≡ v
join w v e = omega (arith, e)

Reads-put_more :
    (n v : ℕ) (b after : Buffer)
    → Reads n (v / 2 ^ 7) (put_more v b) after
    → Reads (suc n) v b after
unfolding put_more
Reads-put_more n v b after (bytes, e, reads) =
    let w : ℕ = bit_or 0x80 v % 256 in
    let more : ltb w 128 ≡ false = ground (arith, more_byte v) in
    (
      w ∷ bytes,
      e ∙ append_assoc b (w ∷ []) bytes,
      λ rest. rw (more, reads rest, join w v (more_byte v)) refl,
    )

-- The ninth byte has all its eight bits.
Reads-put_last : (v : ℕ) (b : Buffer) → 128 ≤ v → v < 256 → Reads 0 v b (put_more v b)
unfolding put_more
Reads-put_last v b l h =
    let w : ℕ = bit_or 0x80 v % 256 in
    let same : w ≡ v = omega (arith, more_byte v) in (w ∷ [], refl, λ rest. rw same refl)

abbrev above : ℕ → ℕ → ℕ
above zero n = n
above (suc k) n = suc (above k n)

Reads-put_groups :
    (k n v : ℕ) (b : Buffer) → v < 128 ^ suc k → Reads (above k n) v b (put_groups k v b)
unfolding put_groups
Reads-put_groups zero n v b h = Reads-put8 n v b (omega arith)
Reads-put_groups (suc k) n v b h =
    if_cases (Reads (suc (above k n)) v b) (ltb 0x7f v) _ _
      (λ more.
        Reads-put_more (above k n) v b (put_groups k (v / 2 ^ 7) (put_more v b))
          (Reads-put_groups k n (v / 2 ^ 7) (put_more v b) (omega arith)))
      (λ last. Reads-put8 (suc (above k n)) v b (ground arith))

Reads-put_three :
    (n v : ℕ) (b after : Buffer)
    → Reads n (v / 2 ^ 21) (put_three v b) after
    → Reads (above 3 n) v b after
unfolding put_three
Reads-put_three n v b after r =
    let one : Buffer = put_more v b in
    let two : Buffer = put_more (v / 2 ^ 7) one in
    let twice : v / 2 ^ 7 / 2 ^ 7 ≡ v / 2 ^ 14 = omega arith in
    let thrice : v / 2 ^ 14 / 2 ^ 7 ≡ v / 2 ^ 21 = omega arith in
    let third : Reads (above 1 n) (v / 2 ^ 14) two after =
      Reads-put_more n (v / 2 ^ 14) two after (rw thrice r) in
    Reads-put_more (above 2 n) v b after
      (Reads-put_more (above 1 n) (v / 2 ^ 7) one after (rw twice third))

-- The last of the nine bytes closes the third round.
Reads-put_nine : (v : ℕ) (b : Buffer) → 2 ^ 21 ≤ v → v < 2 ^ 22 → Reads 2 v b (put_three v b)
unfolding put_three
Reads-put_nine v b l h =
    let one : Buffer = put_more v b in
    let two : Buffer = put_more (v / 2 ^ 7) one in
    let after : Buffer = put_more (v / 2 ^ 14) two in
    let twice : v / 2 ^ 7 / 2 ^ 7 ≡ v / 2 ^ 14 = omega arith in
    let third : Reads 0 (v / 2 ^ 14) two after =
      Reads-put_last (v / 2 ^ 14) two (omega arith) (omega arith) in
    Reads-put_more 1 v b after (Reads-put_more 0 (v / 2 ^ 7) one after (rw twice third))

-- One round, two and three, by the digits that are left.
Reads-put_long_one : (v : ℕ) (b : Buffer) → v < 2 ^ 22 → Reads 2 v b (put_long 1 v b)
unfolding put_long
Reads-put_long_one v b h =
    if_cases (Reads 2 v b) (ltb 0x1fffff v) _ _ (λ more. Reads-put_nine v b (ground arith) h)
      (λ last. Reads-put_groups 2 0 v b (ground arith))

Reads-put_long_two : (v : ℕ) (b : Buffer) → v < 2 ^ 43 → Reads 5 v b (put_long 2 v b)
unfolding put_long
Reads-put_long_two v b h =
    if_cases (Reads 5 v b) (ltb 0x1fffff v) _ _
      (λ more.
        Reads-put_three 2 v b (put_long 1 (v / 2 ^ 21) (put_three v b))
          (Reads-put_long_one (v / 2 ^ 21) (put_three v b) (omega arith)))
      (λ last. Reads-put_groups 2 3 v b (ground arith))

Reads-put_var64 : (v : ℕ) (b : Buffer) → v < 2 ^ 64 → Reads 8 v b (put_var64 v b)
unfolding put_long put_var64
Reads-put_var64 v b h =
    if_cases (Reads 8 v b) (ltb 0x1fffff v) _ _
      (λ more.
        Reads-put_three 5 v b (put_long 2 (v / 2 ^ 21) (put_three v b))
          (Reads-put_long_two (v / 2 ^ 21) (put_three v b) (omega arith)))
      (λ last. Reads-put_groups 2 6 v b (ground arith))

Reads-put_var32 : (v : ℕ) (b : Buffer) → v < 2 ^ 32 → Reads 8 v b (put_var32 v b)
unfolding put_var32
Reads-put_var32 v b h = Reads-put_groups 4 4 v b (omega arith)

-- From what putVar64 and putVar32 put behind the bytes of a buffer, a reader of the format with at most
-- nine bytes to a number, eight bits in the ninth, gets the number back and leaves what follows; for
-- every 64-bit number and every 32-bit number.
pub put_var-Reads :
    (v u : ℕ) (b : Buffer)
    → v < 2 ^ 64
    → u < 2 ^ 32
    → Reads 8 v b (put_var64 v b) × Reads 8 u b (put_var32 u b)
put_var-Reads v u b hv hu = (Reads-put_var64 v b hv, Reads-put_var32 u b hu)
