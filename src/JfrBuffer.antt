-- ===== src/JfrBuffer.antt =====
-- class Buffer of src/flightRecorder.cpp, as the list of the bytes from its start to its offset. The
-- caller keeps the buffer large enough.
pub mod VarInt
mod Tests
use async_profiler.Base.{
  ℕ, zero, suc, ◌+◌, ◌*◌, ◌/◌, ◌%◌, ◌^◌, List, [], ◌∷◌, ◌++◌, Option, none, some, if◌then◌else◌,
  ltb, length, take, bit_or,
}
use async_profiler.Base.Texts.{Text}

abbrev pub Buffer : Type 0
Buffer = List ℕ

abbrev pub max_string_length : ℕ
max_string_length = 8191

-- A store at an offset within the buffer.
unfoldable pub store_at : ℕ → ℕ → Buffer → Buffer
store_at i v [] = []
store_at zero v (x ∷ xs) = v ∷ xs
store_at (suc i) v (x ∷ xs) = x ∷ store_at i v xs

abbrev pub put : Text → Buffer → Buffer
put v b = b ++ v

unfoldable pub put8 : ℕ → Buffer → Buffer
put8 v b = b ++ (v % 256 ∷ [])

-- The stores of words are in network byte order.
unfoldable pub put16 : ℕ → Buffer → Buffer
unfolding put8
put16 v b = put8 v (put8 (v / 2 ^ 8) b)

unfoldable pub put32 : ℕ → Buffer → Buffer
unfolding put16
put32 v b = put16 v (put16 (v / 2 ^ 16) b)

unfoldable pub put64 : ℕ → Buffer → Buffer
unfolding put32
put64 v b = put32 v (put32 (v / 2 ^ 32) b)

-- `(char)v | 0x80`
unfoldable pub put_more : ℕ → Buffer → Buffer
put_more v b = b ++ (bit_or 0x80 v % 256 ∷ [])

-- The loop `while (v > 0x7f)` and the last byte; `n` rounds are enough for v < 128 ^ (n + 1).
unfoldable pub put_groups : ℕ → ℕ → Buffer → Buffer
unfolding put8 put_more
put_groups zero v b = put8 v b
put_groups (suc n) v b =
    let rest = put_groups n (v / 2 ^ 7) (put_more v b) in if ltb 0x7f v then rest else put8 v b

unfoldable pub put_var32 : ℕ → Buffer → Buffer
unfolding put_groups
put_var32 v b = put_groups 4 v b

unfoldable pub put_three : ℕ → Buffer → Buffer
unfolding put_more
put_three v b = put_more (v / 2 ^ 14) (put_more (v / 2 ^ 7) (put_more v b))

-- The loop `while (v > 0x1fffff)` with `n` rounds left, of three; the last one returns.
unfoldable pub put_long : ℕ → ℕ → Buffer → Buffer
unfolding put_three put_groups
put_long zero v b = b
put_long (suc n) v b =
    let rest = put_long n (v / 2 ^ 21) (put_three v b) in
    if ltb 0x1fffff v then rest else put_groups 2 v b

unfoldable pub put_var64 : ℕ → Buffer → Buffer
unfolding put_long
put_var64 v b = put_long 3 v b

-- A text of a given length, as UTF-8 or as bytes.
unfoldable pub put_utf8_text : Text → Buffer → Buffer
unfolding put8 put_var32
put_utf8_text v b = put v (put_var32 (length v) (put8 3 b))

unfoldable pub put_byte_text : Text → Buffer → Buffer
unfolding put8 put_var32
put_byte_text v b = put v (put_var32 (length v) (put8 5 b))

abbrev pub cut : Text → Text
cut v = if ltb (length v) max_string_length then v else take max_string_length v

unfoldable pub put_utf8 : Option Text → Buffer → Buffer
unfolding put8 put_utf8_text
put_utf8 none b = put8 0 b
put_utf8 (some v) b = put_utf8_text (cut v) b

unfoldable pub put_byte_string : Option Text → Buffer → Buffer
unfolding put8 put_byte_text
put_byte_string none b = put8 0 b
put_byte_string (some v) b = put_byte_text (cut v) b

-- `putVar32(offset, v)`: five bytes, with as many groups as it takes.
unfoldable pub put_var32_at : ℕ → ℕ → Buffer → Buffer
unfolding store_at
put_var32_at i v b = store_at (i + 4) (v / 2 ^ 28) (
    store_at (i + 3) (bit_or 0x80 (v / 2 ^ 21) % 256) (
      store_at (i + 2) (bit_or 0x80 (v / 2 ^ 14) % 256)
        (store_at (i + 1) (bit_or 0x80 (v / 2 ^ 7) % 256) (store_at i (bit_or 0x80 v % 256) b))))
