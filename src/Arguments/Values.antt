-- ===== src/Arguments/Values.antt =====
-- The values of options: `parseUnits`, `parseTimeout`, `isUrl` and `detectOutputFormat` of
-- src/arguments.cpp.
use async_profiler.Base.{
  ℕ, ◌+◌, ◌*◌, ◌%◌, ◌^◌, Bool, false, ◌&&◌, ◌||◌, List, [], ◌∷◌, Option, none, some, if◌then◌else◌,
  leb, ◌==◌, bit_or,
}
use async_profiler.Base.Int.{ℤ, pos, negsuc, ◌*ℤ◌}
use async_profiler.Base.Texts.{
  Text, codes, text_eq, starts_with, after_char, after_last_char, strtol, atoi, bits32, int32,
  to_int,
}
use async_profiler.Arguments.{Output, text, collapsed, flamegraph, jfr, otlp}

-- A table of units ends where the list ends; the source marks the end by a symbol 0.
abbrev pub Multipliers : Type 0
Multipliers = List (ℕ × ℕ)

abbrev pub nanos : Multipliers
nanos = (b'n', 1) ∷ (b'u', 1000) ∷ (b'm', 1000000) ∷ (b's', 1000000000) ∷ []

abbrev pub bytes : Multipliers
bytes = (b'b', 1) ∷ (b'k', 1024) ∷ (b'm', 1048576) ∷ (b'g', 1073741824) ∷ []

abbrev pub seconds : Multipliers
seconds = (b's', 1) ∷ (b'm', 60) ∷ (b'h', 3600) ∷ (b'd', 86400) ∷ []

abbrev pub universal : Multipliers
universal =
    (b'n', 1)
    ∷ (b'u', 1000)
    ∷ (b'm', 1000000)
    ∷ (b's', 1000000000)
    ∷ (b'b', 1)
    ∷ (b'k', 1024)
    ∷ (b'g', 1073741824)
    ∷ []

unfoldable pub find_multiplier : ℕ → Multipliers → Option ℕ
find_multiplier c [] = none
find_multiplier c ((symbol, multiplier) ∷ rest) =
    let later = find_multiplier c rest in if c == symbol then some multiplier else later

abbrev pub lower_case : ℕ → ℕ
lower_case c = if leb b'A' c && leb c b'Z' then c + 32 else c

-- The product of two `long`s that fits one; any other is undefined in the source.
unfoldable pub in_units : ℤ → Option ℕ → ℤ
in_units result none = negsuc 0
in_units result (some m) = result *ℤ pos m

unfoldable pub units_of : ℤ → Text → Multipliers → ℤ
unfolding find_multiplier in_units
units_of result [] multipliers = result
units_of result (c ∷ cs) multipliers = in_units result (find_multiplier (lower_case c) multipliers)

-- A text without a number, or with an unknown unit, gives -1.
unfoldable pub parse_units : Text → Multipliers → ℤ
unfolding units_of
parse_units str multipliers = elim (strtol 0 str) [
  | none ↦ negsuc 0
  | some (result, end) ↦ units_of result end multipliers
]

abbrev pub starts_within : ℕ → ℕ → Text → Bool
starts_within low high [] = false
starts_within low high (c ∷ cs) = leb low c && leb c high

-- A part of a time of day, as bits, or 0xff if it does not start with a fitting digit.
unfoldable pub time_part : ℕ → Text → ℕ
time_part high s = if starts_within b'0' high s then bits32 (atoi s) else 0xff

unfoldable pub seconds_part : Option Text → ℕ
unfolding time_part
seconds_part none = 0xff
seconds_part (some s) = time_part b'5' s

-- hh:mm or hh:mm:ss packed below 0xff000000, or a duration.
unfoldable pub parse_timeout : Text → ℤ
unfolding time_part seconds_part
parse_timeout str = elim (after_char b':' str) [
  | none ↦ to_int (parse_units str seconds)
  | some p ↦ int32 (
      bit_or 0xff000000 (
        bit_or (time_part b'2' str * 2 ^ 16 % 2 ^ 32)
          (bit_or (time_part b'5' p * 2 ^ 8 % 2 ^ 32) (seconds_part (after_char b':' p)))))
]

unfoldable pub is_url : Text → Bool
is_url file = starts_with (codes "http://") file || starts_with (codes "https://") file

unfoldable pub format_of_extension : Text → Output
format_of_extension ext =
    if text_eq ext (codes "html")
    then flamegraph
    else if text_eq ext (codes "jfr")
    then jfr
    else if text_eq ext (codes "collapsed") || text_eq ext (codes "folded")
    then collapsed
    else text

unfoldable pub detect_output_format : Text → Output
unfolding is_url format_of_extension
detect_output_format file =
    if is_url file
    then otlp
    else (elim (after_last_char b'.' file) [ none ↦ text | some ext ↦ format_of_extension ext ])
