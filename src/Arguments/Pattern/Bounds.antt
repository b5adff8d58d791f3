-- ===== src/Arguments/Pattern/Bounds.antt =====
-- `expandFilePattern` (src/arguments.cpp) and its part of the buffer.
use async_profiler.Base.{
  ℕ, zero, suc, ◌+◌, ◌-◌, ◌≤◌, ◌<◌, ◌≡◌, refl, ◌∙◌, arith, not, [], ◌∷◌, Option, none, some,
  if◌then◌else◌, ◌==◌, ltb, length, ap, if_cases, if_both,
}
use async_profiler.Base.Texts.{Text}
use async_profiler.Arguments.Pattern.Rounds.{expand_from_enough}
use async_profiler.Arguments.Pattern.{
  Environment, Buffer, extra_buf_size, end_place, store, print_at, append_text, put_char,
  sequence_bound, sequence_number, variable_in, expand_variable, expand_escape, expand_from,
  terminated, expand_file_pattern,
}

-- A memory keeps what another has from the end of the extra bytes on.
abbrev pub Keeps : Buffer → Buffer → Type 0
Keeps before after = (i : ℕ) → extra_buf_size ≤ i → after i ≡ before i

store-Keeps : (i c : ℕ) (buf : Buffer) → i < extra_buf_size → Keeps buf (store i c buf)
store-Keeps i c buf low j h = ground arith

Keeps-trans : (a b c : Buffer) → Keeps a b → Keeps b c → Keeps a c
Keeps-trans a b c f g i h = g i h ∙ f i h

-- Text that is printed stays in its room.
print_at-Keeps :
    (size i : ℕ) (s : Text) (buf : Buffer)
    → i + size ≤ extra_buf_size
    → Keeps buf (print_at size i s buf)
unfolding print_at
print_at-Keeps zero i s buf h = λ j low. refl
print_at-Keeps (suc size) i [] buf h = store-Keeps i 0 buf (omega arith)
print_at-Keeps (suc zero) i (c ∷ cs) buf h = store-Keeps i 0 buf (omega arith)
print_at-Keeps (suc (suc size)) i (c ∷ cs) buf h =
    Keeps-trans buf (store i c buf) (print_at (suc size) (i + 1) cs (store i c buf))
      (store-Keeps i c buf (omega arith))
      (print_at-Keeps (suc size) (i + 1) cs (store i c buf) (omega arith))

append_text-Keeps :
    (s : Text) (ptr : ℕ) (buf : Buffer) → ptr < end_place → Keeps buf (append_text s ptr buf).1
unfolding append_text
append_text-Keeps s ptr buf h = print_at-Keeps (end_place - ptr) ptr s buf (omega arith)

expand_variable-Keeps :
    (v : Option (Text × Text)) (cs : Text) (ptr : ℕ) (buf : Buffer)
    → ptr < end_place
    → Keeps buf (expand_variable v cs ptr buf).1.1
unfolding expand_variable
expand_variable-Keeps none cs ptr buf h = store-Keeps ptr b'{' buf (omega arith)
expand_variable-Keeps (some (value, rest)) cs ptr buf h = append_text-Keeps value ptr buf h

abbrev Kept : Buffer → Text × (ℕ × Buffer) → Type 0
Kept buf round = Keeps buf round.1.1

-- A round writes below the end, and one byte further behind a lone `%`.
expand_escape-Keeps :
    (env : Environment) (file_num c : ℕ) (cs : Text) (ptr : ℕ) (buf : Buffer)
    → ptr < end_place
    → Keeps buf (expand_escape env file_num c cs ptr buf).1.1
unfolding expand_escape
expand_escape-Keeps env file_num c cs ptr buf h =
    let at : (s : Text) → Keeps buf (append_text s ptr buf).1 =
      λ s. append_text-Keeps s ptr buf h in
    if_both (Kept buf) (c == b'p') _ _ (at env.pid) (
      if_both (Kept buf) (c == b't') _ _ (at env.timestamp) (
        if_both (Kept buf) (c == b'n') _ _
          (at (env.decimal (sequence_number (sequence_bound cs).0 file_num)))
          (if_both (Kept buf) (c == b'{') _ _
            (expand_variable-Keeps (variable_in env cs) cs ptr buf h)
            (if_both (Kept buf) (c == b'%') _ _ (store-Keeps ptr c buf (omega arith)) (
              Keeps-trans buf (store ptr b'%' buf) (store (ptr + 1) c (store ptr b'%' buf))
                (store-Keeps ptr b'%' buf (omega arith))
                (store-Keeps (ptr + 1) c (store ptr b'%' buf) (omega arith)))))))

-- The first character of a round, plain or the start of an escape.
round-Keeps :
    (env : Environment) (file_num c d : ℕ) (cs : Text) (ptr : ℕ) (buf : Buffer)
    → ptr < end_place
    → Keeps buf
        (if c == b'%'
          then expand_escape env file_num d cs ptr buf
          else (d ∷ cs, put_char c ptr buf)).1.1
round-Keeps env file_num c d cs ptr buf h =
    if_both (Kept buf) (c == b'%') _ _ (expand_escape-Keeps env file_num d cs ptr buf h)
      (store-Keeps ptr c buf (omega arith))

expand_from-Keeps :
    (env : Environment) (file_num fuel : ℕ) (cs : Text) (ptr : ℕ) (buf : Buffer)
    → Keeps buf (expand_from env file_num fuel cs ptr buf).1
unfolding expand_from
expand_from-Keeps env file_num zero cs ptr buf = λ i low. refl
expand_from-Keeps env file_num (suc fuel) [] ptr buf = λ i low. refl
expand_from-Keeps env file_num (suc fuel) (c ∷ []) ptr buf = λ i low. ground arith
expand_from-Keeps env file_num (suc fuel) (c ∷ d ∷ cs) ptr buf =
    let round : Text × (ℕ × Buffer) =
      if c == b'%' then expand_escape env file_num d cs ptr buf else (d ∷ cs, put_char c ptr buf) in
    let rest : ℕ × Buffer = expand_from env file_num fuel round.0 round.1.0 round.1.1 in
    if_cases (λ (state : ℕ × Buffer). Keeps buf state.1) (not (ltb ptr end_place)) (ptr, buf) rest
      (λ e i low. refl)
      (λ e.
        Keeps-trans buf round.1.1 rest.1 (round-Keeps env file_num c d cs ptr buf (ground arith))
          (expand_from-Keeps env file_num fuel round.0 round.1.0 round.1.1))

-- Whatever the pattern, the variables and the buffer are, expanding leaves every byte from the
-- 512th on as it was (the options that the pattern is read from stand there), and the expanded name
-- ends within the 512 bytes: there is a 0 among them. A round for each character of the pattern is
-- enough: more rounds change nothing.
pub expand_file_pattern_bounds :
    (env : Environment) (file_num : ℕ) (cs : Text) (buf : Buffer)
    → Keeps buf (expand_file_pattern env file_num cs buf)
      × ((i : ℕ) × (i < extra_buf_size) × (expand_file_pattern env file_num cs buf i ≡ 0))
      × ((extra : ℕ)
          → terminated (expand_from env file_num (length cs + extra) cs 0 buf)
            ≡ expand_file_pattern env file_num cs buf)
unfolding expand_file_pattern terminated
expand_file_pattern_bounds env file_num cs buf =
    let (ptr, buf') = expand_from env file_num (length cs) cs 0 buf in
    let end : ℕ = if ltb ptr end_place then ptr else end_place in
    let inside : end < extra_buf_size = ground arith in
    (
      Keeps-trans buf buf' (store end 0 buf') (expand_from-Keeps env file_num (length cs) cs 0 buf)
          (store-Keeps end 0 buf' inside),
      (end, inside, ground arith),
      λ extra. ap terminated (
          expand_from_enough env file_num (length cs + extra) (length cs) cs 0 buf (omega arith)
            (omega arith)),
    )
