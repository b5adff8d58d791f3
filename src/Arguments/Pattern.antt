-- ===== src/Arguments/Pattern.antt =====
-- `Arguments::file` and `Arguments::expandFilePattern` of src/arguments.cpp. The buffer `_buf` is a
-- memory of bytes, and a pointer into it is an offset; the options themselves stand behind its first
-- `extra_buf_size` bytes. What the C library and the system give is a parameter.
pub mod Rounds
pub mod Bounds
mod Tests
use async_profiler.Base.{
  ℕ, zero, suc, ◌+◌, ◌-◌, ◌%◌, ◌<◌, Bool, true, false, not, ◌&&◌, List, [], ◌∷◌, Option, none, some,
  if◌then◌else◌, ◌==◌, ltb, length,
}
use async_profiler.Base.Texts.{Text, contains_char, after_char, before_char, atoi, bits32}
use async_profiler.Arguments.{Arguments}

abbrev pub extra_buf_size : ℕ
extra_buf_size = 512

-- The last place of the buffer.
abbrev pub end_place : ℕ
end_place = extra_buf_size - 1

-- What `getpid`, `localtime_r`, `getenv` and the format `%u` of snprintf yield.
pub record Environment : Type 0 where
  pub pid : Text
  pub timestamp : Text
  pub getenv : Text → Option Text
  pub decimal : ℕ → Text

abbrev pub Buffer : Type 0
Buffer = ℕ → ℕ

-- `buf[i] = c`
abbrev pub store : ℕ → ℕ → Buffer → Buffer
store i c buf j = if i == j then c else buf j

-- snprintf at a place, with room for `size` bytes: what does not fit is dropped, and a 0 is put
-- behind the text that is written.
unfoldable pub print_at : ℕ → ℕ → Text → Buffer → Buffer
print_at zero i s buf = buf
print_at (suc size) i [] buf = store i 0 buf
print_at (suc zero) i (c ∷ cs) buf = store i 0 buf
print_at (suc (suc size)) i (c ∷ cs) buf = print_at (suc size) (i + 1) cs (store i c buf)

-- `ptr += snprintf(ptr, end - ptr, ...)`: the pointer moves by the length of the whole text.
unfoldable pub append_text : Text → ℕ → Buffer → ℕ × Buffer
unfolding print_at
append_text s ptr buf = (ptr + length s, print_at (end_place - ptr) ptr s buf)

-- `*ptr++ = c`
abbrev pub put_char : ℕ → ℕ → Buffer → ℕ × Buffer
put_char c ptr buf = (ptr + 1, store ptr c buf)

-- `%n` with its optional bound in braces: the bound, and the rest of the pattern.
unfoldable pub sequence_bound : Text → ℕ × Text
unfolding after_char atoi
sequence_bound [] = (0, [])
sequence_bound (c ∷ cs) =
    if c == b'{'
    then (elim (after_char b'}' (c ∷ cs)) [
      | none ↦ (0, c ∷ cs)
      | some rest ↦ (bits32 (atoi cs), rest)
    ])
    else (0, c ∷ cs)

unfoldable pub sequence_number : ℕ → ℕ → ℕ
sequence_number zero file_num = file_num
sequence_number (suc max) file_num = file_num % suc max

-- `%{NAME}`: the value of the variable and the rest of the pattern, if there is a name of less than
-- 128 characters and the variable is set.
unfoldable pub variable_in : Environment → Text → Option (Text × Text)
unfolding after_char before_char
variable_in env pattern_text = elim (after_char b'}' pattern_text) [
  | none ↦ none
  | some rest ↦
      if ltb (length (before_char b'}' pattern_text)) 128
      then (elim (env.getenv (before_char b'}' pattern_text)) [
        | none ↦ none
        | some value ↦ some (value, rest)
      ])
      else none
]

-- The round at `%{`: an unknown variable leaves the brace.
unfoldable pub expand_variable : Option (Text × Text) → Text → ℕ → Buffer → Text × (ℕ × Buffer)
unfolding append_text
expand_variable (some (value, rest)) cs ptr buf = (rest, append_text value ptr buf)
expand_variable none cs ptr buf = (cs, put_char b'{' ptr buf)

-- The round for the character behind a `%`.
unfoldable pub expand_escape : Environment → ℕ → ℕ → Text → ℕ → Buffer → Text × (ℕ × Buffer)
unfolding append_text sequence_bound sequence_number variable_in expand_variable
expand_escape env file_num c cs ptr buf =
    if c == b'p'
    then (cs, append_text env.pid ptr buf)
    else if c == b't'
    then (cs, append_text env.timestamp ptr buf)
    else if c == b'n'
    then (let (max, rest) = sequence_bound cs in
        (rest, append_text (env.decimal (sequence_number max file_num)) ptr buf))
    else if c == b'{'
    then expand_variable (variable_in env cs) cs ptr buf
    else if c == b'%'
    then (cs, put_char c ptr buf)
    else (cs, put_char c (ptr + 1) (store ptr b'%' buf))

-- The loop; each round takes at least one character of the pattern.
unfoldable pub expand_from : Environment → ℕ → ℕ → Text → ℕ → Buffer → ℕ × Buffer
unfolding expand_escape
expand_from env file_num zero cs ptr buf = (ptr, buf)
expand_from env file_num (suc fuel) [] ptr buf = (ptr, buf)
expand_from env file_num (suc fuel) (c ∷ []) ptr buf =
    if not (ltb ptr end_place)
    then (ptr, buf)
    else if c == b'%'
    then (ptr, buf)
    else put_char c ptr buf
expand_from env file_num (suc fuel) (c ∷ d ∷ cs) ptr buf =
    let (rest, (ptr', buf')) =
      if c == b'%' then expand_escape env file_num d cs ptr buf else (d ∷ cs, put_char c ptr buf) in
    let later = expand_from env file_num fuel rest ptr' buf' in
    if not (ltb ptr end_place) then (ptr, buf) else later

-- `*(ptr < end ? ptr : end) = 0`
unfoldable pub terminated : ℕ × Buffer → Buffer
terminated (ptr, buf) = store (if ltb ptr end_place then ptr else end_place) 0 buf

unfoldable pub expand_file_pattern : Environment → ℕ → Text → Buffer → Buffer
unfolding expand_from terminated
expand_file_pattern env file_num cs buf = terminated (expand_from env file_num (length cs) cs 0 buf)

-- The text at the start of the buffer.
unfoldable pub text_at : ℕ → ℕ → Buffer → Text
text_at zero i buf = []
text_at (suc n) i buf = elim (buf i) [ zero ↦ [] | suc c ↦ suc c ∷ text_at n (i + 1) buf ]

-- `file()`: the name with its patterns expanded.
unfoldable pub file_name : Environment → Arguments → Buffer → Option Text
unfolding expand_file_pattern text_at contains_char
file_name env a buf = elim a.file [
  | none ↦ none
  | some file ↦
      if contains_char b'%' file
      then some (text_at extra_buf_size 0 (expand_file_pattern env a.file_num file buf))
      else some file
]
