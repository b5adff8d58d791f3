-- ===== src/Base/Texts.antt =====
-- Texts as the C library sees them: lists of bytes, without the terminating 0. The functions are
-- those of <string.h> and <stdlib.h> that the code calls, in the "C" locale with 64-bit `long`s.
use Prim.Native.Char.{code}
use Prim.Native.String.{String}
use Prim.Native.Nat.{ℕ, zero, suc, ◌+◌, ◌-◌, ◌*◌, ◌%◌, ◌^◌}
use mathlib.Core.Bool.{Bool, true, false, ◌&&◌, ◌||◌}
use mathlib.Core.Option.{Option, none, some}
use mathlib.Core.List.{List, [], ◌∷◌}
use async_profiler.Base.Int.{ℤ, pos, negsuc}
use async_profiler.Base.Tests.{ltb, leb, ◌==◌, if◌then◌else◌}

abbrev pub Text : Type 0
Text = List ℕ

-- The bytes of a literal.
abbrev pub codes : String → Text
codes String.[] = []
codes (String.◌∷◌ c s) = code c ∷ codes s

-- `strcmp(a, b) == 0`
unfoldable pub text_eq : Text → Text → Bool
text_eq [] [] = true
text_eq [] (y ∷ ys) = false
text_eq (x ∷ xs) [] = false
text_eq (x ∷ xs) (y ∷ ys) = (x == y) && text_eq xs ys

-- What `strncmp` with the length of the prefix finds equal: the rest of the text after the prefix.
unfoldable pub after_prefix : Text → Text → Option Text
after_prefix [] ys = some ys
after_prefix (x ∷ xs) [] = none
after_prefix (x ∷ xs) (y ∷ ys) = let rest = after_prefix xs ys in if x == y then rest else none

unfoldable pub starts_with : Text → Text → Bool
unfolding after_prefix
starts_with prefix text = elim (after_prefix prefix text) [ none ↦ false | some rest ↦ true ]

unfoldable pub contains_char : ℕ → Text → Bool
contains_char c [] = false
contains_char c (x ∷ xs) = (x == c) || contains_char c xs

-- What stands behind the first `c`: `strchr(text, c) + 1`.
unfoldable pub after_char : ℕ → Text → Option Text
after_char c [] = none
after_char c (x ∷ xs) = let rest = after_char c xs in if x == c then some xs else rest

-- What stands before the first `c`.
unfoldable pub before_char : ℕ → Text → Text
before_char c [] = []
before_char c (x ∷ xs) = let rest = before_char c xs in if x == c then [] else x ∷ rest

-- What stands behind the last `c`: `strrchr(text, c) + 1`.
unfoldable pub after_last_char : ℕ → Text → Option Text
after_last_char c [] = none
after_last_char c (x ∷ xs) = elim (after_last_char c xs) [
  | some rest ↦ some rest
  | none ↦ if x == c then some xs else none
]

-- `strstr(text, part) != NULL`
unfoldable pub contains_text : Text → Text → Bool
unfolding starts_with
contains_text part [] = starts_with part []
contains_text part (x ∷ xs) = starts_with part (x ∷ xs) || contains_text part xs

abbrev pub is_digit : ℕ → Bool
is_digit c = leb b'0' c && leb c b'9'

abbrev pub is_space : ℕ → Bool
is_space c = (c == 32) || (leb 9 c && leb c 13)

-- The value of a digit in bases up to 36; 99 for any other character.
abbrev pub digit_value : ℕ → ℕ
digit_value c =
    if is_digit c
    then c - b'0'
    else if leb b'a' c && leb c b'z'
    then c - b'a' + 10
    else if leb b'A' c && leb c b'Z'
    then c - b'A' + 10
    else 99

-- The number that the digits at the front make, behind what was read so far, and the rest.
unfoldable pub read_digits : ℕ → ℕ → Text → ℕ × Text
read_digits base acc [] = (acc, [])
read_digits base acc (c ∷ cs) =
    let rest = read_digits base (acc * base + digit_value c) cs in
    if ltb (digit_value c) base then rest else (acc, c ∷ cs)

unfoldable pub skip_spaces : Text → Text
skip_spaces [] = []
skip_spaces (c ∷ cs) = let rest = skip_spaces cs in if is_space c then rest else c ∷ cs

abbrev pub is_digit_of : ℕ → Text → Bool
is_digit_of base [] = false
is_digit_of base (c ∷ cs) = ltb (digit_value c) base

-- Digits of a base, at least one.
unfoldable pub scan_in : ℕ → Text → Option (ℕ × Text)
unfolding read_digits
scan_in base s = if is_digit_of base s then some (read_digits base 0 s) else none

-- The base that the number shows by its prefix, for base 0.
unfoldable pub scan_any : Text → Option (ℕ × Text)
unfolding scan_in
scan_any [] = none
scan_any (c ∷ []) = scan_in 10 (c ∷ [])
scan_any (c ∷ d ∷ s) =
    if c == b'0'
    then (if ((d == b'x') || (d == b'X')) && is_digit_of 16 s
        then scan_in 16 s
        else scan_in 8 (c ∷ d ∷ s))
    else scan_in 10 (c ∷ d ∷ s)

unfoldable pub scan_number : ℕ → Text → Option (ℕ × Text)
unfolding scan_any scan_in
scan_number base s = if base == 0 then scan_any s else scan_in base s

abbrev pub long_max : ℕ
long_max = 2 ^ 63 - 1

-- A value past the range comes out as LONG_MAX or LONG_MIN.
abbrev pub saturated : Bool → ℕ → ℤ
saturated true zero = pos 0
saturated true (suc n) = negsuc (if ltb long_max n then long_max else n)
saturated false n = pos (if ltb long_max n then long_max else n)

-- The sign at the front of a text, and the text behind it.
abbrev pub sign_of : Text → Bool × Text
sign_of [] = (false, [])
sign_of (c ∷ cs) =
    if c == b'-' then (true, cs) else if c == b'+' then (false, cs) else (false, c ∷ cs)

-- `strtol(s, &end, base)` for base 0 or 10: the value and what `end` points to, or `none` when there
-- is no number (the value is 0 and `end` is `s`).
unfoldable pub strtol : ℕ → Text → Option (ℤ × Text)
unfolding skip_spaces scan_number
strtol base s =
    let (minus, digits) = sign_of (skip_spaces s) in
    elim (scan_number base digits) [ none ↦ none | some (n, rest) ↦ some (saturated minus n, rest) ]

-- `strtoull(s, &end, 10)`; a negative number wraps, and one past the range is ULLONG_MAX.
unfoldable pub strtoull : Text → Option (ℕ × Text)
unfolding skip_spaces scan_number
strtoull s =
    let (minus, digits) = sign_of (skip_spaces s) in
    elim (scan_number 10 digits) [
      | none ↦ none
      | some (n, rest) ↦
          let top : ℕ = 2 ^ 64 - 1 in
          some (if ltb top n then top else if minus then (2 ^ 64 - n) % 2 ^ 64 else n, rest)
    ]

abbrev pub value_or_zero : Option (ℤ × Text) → ℤ
value_or_zero none = pos 0
value_or_zero (some (n, rest)) = n

-- The 32-bit pattern of an integer, and the `int` that a pattern stands for.
abbrev pub bits32 : ℤ → ℕ
bits32 (pos n) = n % 2 ^ 32
bits32 (negsuc n) = 2 ^ 32 - 1 - n % 2 ^ 32

abbrev pub int32 : ℕ → ℤ
int32 n = if ltb n (2 ^ 31) then pos n else negsuc (2 ^ 32 - 1 - n)

-- `(int)` of a `long`.
abbrev pub to_int : ℤ → ℤ
to_int a = int32 (bits32 a)

unfoldable pub atoi : Text → ℤ
unfolding strtol
atoi s = to_int (value_or_zero (strtol 10 s))
