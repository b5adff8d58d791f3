-- ===== src/Arguments/Pattern/Rounds.antt =====
-- The rounds of `expandFilePattern` (src/arguments.cpp), and the part of the pattern that each takes.
use async_profiler.Base.{
  ℕ, zero, suc, ◌≤◌, ◌≡◌, refl, ap, arith, not, [], ◌∷◌, Option, none, some, if◌then◌else◌, ◌==◌,
  ltb, length, if_both,
}
use async_profiler.Base.Texts.{Text, after_char, before_char, atoi, bits32}
use async_profiler.Base.Lengths.{Within, after_char-Within}
use async_profiler.Arguments.Pattern.{
  Environment, Buffer, end_place, put_char, sequence_bound, variable_in, expand_variable,
  expand_escape, expand_from,
}

found_bound :
    (n : ℕ) (cs s : Text) (found : Option Text)
    → length s ≤ n
    → Within n found
    → length
        (elim found as (λ _. ℕ × Text) [ none ↦ (0, s) | some rest ↦ (bits32 (atoi cs), rest) ]).1
      ≤ n
found_bound n cs s none h w = h
found_bound n cs s (some rest) h w = w

sequence_bound-le : (s : Text) → length (sequence_bound s).1 ≤ length s
unfolding sequence_bound
sequence_bound-le [] = omega arith
sequence_bound-le (c ∷ cs) =
    if_both (λ (r : ℕ × Text). length r.1 ≤ suc (length cs)) (c == b'{') _ _
      (found_bound (suc (length cs)) cs (c ∷ cs) (after_char b'}' (c ∷ cs)) (omega arith)
        (after_char-Within (suc (length cs)) b'}' (c ∷ cs) (omega arith)))
      (omega arith)

-- What the rest of the pattern behind a variable fits into.
abbrev ValueWithin : ℕ → Option (Text × Text) → Type 0
ValueWithin n none = Unit
ValueWithin n (some (value, rest)) = length rest ≤ n

found_value :
    (n : ℕ) (value : Option Text) (rest : Text)
    → length rest ≤ n
    → ValueWithin n
        (elim value as (λ _. Option (Text × Text)) [ none ↦ none | some v ↦ some (v, rest) ])
found_value n none rest h = tt
found_value n (some v) rest h = h

named_value :
    (env : Environment) (n : ℕ) (name : Text) (found : Option Text)
    → Within n found
    → ValueWithin n (elim found as (λ _. Option (Text × Text)) [
      | none ↦ none
      | some rest ↦
          if ltb (length name) 128
          then (elim (env.getenv name) [ none ↦ none | some value ↦ some (value, rest) ])
          else none
    ])
named_value env n name none h = tt
named_value env n name (some rest) h =
    if_both (ValueWithin n) (ltb (length name) 128) _ _ (found_value n (env.getenv name) rest h) tt

variable_in-Within : (env : Environment) (s : Text) → ValueWithin (length s) (variable_in env s)
unfolding variable_in
variable_in-Within env s =
    named_value env (length s) (before_char b'}' s) (after_char b'}' s)
      (after_char-Within (length s) b'}' s (omega arith))

expand_variable-le :
    (n : ℕ) (v : Option (Text × Text)) (cs : Text) (ptr : ℕ) (buf : Buffer)
    → length cs ≤ n
    → ValueWithin n v
    → length (expand_variable v cs ptr buf).0 ≤ n
unfolding expand_variable
expand_variable-le n none cs ptr buf h w = h
expand_variable-le n (some (value, rest)) cs ptr buf h w = w

abbrev Shorter : ℕ → Text × (ℕ × Buffer) → Type 0
Shorter n round = length round.0 ≤ n

expand_escape-le :
    (env : Environment) (file_num c : ℕ) (cs : Text) (ptr : ℕ) (buf : Buffer)
    → length (expand_escape env file_num c cs ptr buf).0 ≤ length cs
unfolding expand_escape
expand_escape-le env file_num c cs ptr buf =
    let same : length cs ≤ length cs = omega arith in
    let P : Text × (ℕ × Buffer) → Type 0 = Shorter (length cs) in
    if_both P (c == b'p') _ _ same (
      if_both P (c == b't') _ _ same (
        if_both P (c == b'n') _ _ (sequence_bound-le cs) (
          if_both P (c == b'{') _ _
            (expand_variable-le (length cs) (variable_in env cs) cs ptr buf same
              (variable_in-Within env cs))
            (if_both P (c == b'%') _ _ same same))))

-- Rounds beyond the length of the pattern change nothing.
pub expand_from_enough :
    (env : Environment) (file_num m n : ℕ) (cs : Text) (ptr : ℕ) (buf : Buffer)
    → length cs ≤ m
    → length cs ≤ n
    → expand_from env file_num m cs ptr buf ≡ expand_from env file_num n cs ptr buf
unfolding expand_from
expand_from_enough env file_num zero zero cs ptr buf hm hn = refl
expand_from_enough env file_num zero (suc n) [] ptr buf hm hn = refl
expand_from_enough env file_num (suc m) zero [] ptr buf hm hn = refl
expand_from_enough env file_num (suc m) (suc n) [] ptr buf hm hn = refl
expand_from_enough env file_num zero (suc n) (c ∷ cs) ptr buf hm hn = absurd (omega arith)
expand_from_enough env file_num (suc m) zero (c ∷ cs) ptr buf hm hn = absurd (omega arith)
expand_from_enough env file_num (suc m) (suc n) (c ∷ []) ptr buf hm hn = refl
expand_from_enough env file_num (suc m) (suc n) (c ∷ d ∷ cs) ptr buf hm hn =
    let round : Text × (ℕ × Buffer) =
      if c == b'%' then expand_escape env file_num d cs ptr buf else (d ∷ cs, put_char c ptr buf) in
    let short : length round.0 ≤ suc (length cs) =
      if_both (Shorter (suc (length cs))) (c == b'%') _ _
        (omega (arith, expand_escape-le env file_num d cs ptr buf)) (omega arith) in
    ap (λ (later : ℕ × Buffer). if not (ltb ptr end_place) then (ptr, buf) else later)
      (expand_from_enough env file_num m n round.0 round.1.0 round.1.1 (omega arith) (omega arith))
