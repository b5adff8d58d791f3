-- ===== src/Arguments/Limits.antt =====
-- `parseRateLimit` of src/arguments.cpp, its text and the array of limits.
use async_profiler.Base.{
  ℕ, zero, suc, ◌+◌, ◌-◌, ◌≤◌, ◌<◌, ◌≡◌, refl, arith, Bool, true, false, not, ◌||◌, List, [], ◌∷◌,
  Option, none, some, if◌then◌else◌, ltb, ◌==◌, length, get_or, drop, every_below,
  every_below_sound, Bool-cases, inl, inr, ltb→lt, if_both, if_cases, ap, ◌∙◌,
}
use async_profiler.Base.Int.{ℤ, pos, negsuc}
use async_profiler.Base.Lengths.{Within, NumberWithin, after_char-Within, strtol-Within}
use async_profiler.Base.Texts.{Text, after_char, before_char, strtol}
use async_profiler.Arguments.RateLimits.{
  category_names, index_of, category_at, category_of, int_max, ends_limit, behind, limit_found,
  limit_in, placed, limit_pair, limit_pairs, parse_rate_limit,
}

-- A category that is found is one of the eight.
abbrev Category : Option ℕ → Type 0
Category none = Unit
Category (some category) = category < 8

before_colon : ℕ → Bool
before_colon i =
    not (get_or category_names (i + 1) 0 == b':') || ltb (get_or category_names i 0 - b'0') 8

colons : every_below before_colon 70 ≡ true
unfolding before_colon every_below
colons = refl

get_or_beyond : (xs : List ℕ) (i d : ℕ) → length xs ≤ i → get_or xs i d ≡ d
get_or_beyond [] i d h = refl
get_or_beyond (x ∷ xs) zero d h = absurd (omega arith)
get_or_beyond (x ∷ xs) (suc i) d h = get_or_beyond xs i d (omega arith)

before_colon_holds : (i : ℕ) → before_colon i ≡ true
unfolding before_colon
before_colon_holds i = elim (Bool-cases (ltb i 70)) [
  | inl e ↦ every_below_sound before_colon 70 colons i (ltb→lt i 70 e)
  | inr e ↦
      ap (λ (c : ℕ). not (c == b':') || ltb (get_or category_names i 0 - b'0') 8)
        (get_or_beyond category_names (i + 1) 0 (ground arith))
]

-- The choice of a category, its place and what stands before it apart.
chosen :
    (colon comma : Bool) (category : ℕ)
    → (not colon || ltb category 8) ≡ true
    → Category (if not colon || comma then none else some category)
chosen true true category h = tt
chosen true false category h = ltb→lt category 8 h
chosen false comma category h = tt

category_at-Category : (name : Text) (i : ℕ) → Category (category_at name i)
unfolding category_at before_colon
category_at-Category name i =
    chosen (get_or category_names (i + 1) 0 == b':')
      (ltb b',' (get_or category_names (i + 2 + length name) 0)) (get_or category_names i 0 - b'0')
      (before_colon_holds i)

found-Category :
    (name : Text) (found : Option ℕ)
    → Category (elim found as (λ _. Option ℕ) [ none ↦ none | some i ↦ category_at name i ])
found-Category name none = tt
found-Category name (some i) = category_at-Category name i

category_of-Category : (name : Text) → Category (category_of name)
unfolding category_of
category_of-Category name = found-Category name (index_of name (drop 2 category_names))

-- A limit is unset (negative) or an `int` that is not negative.
abbrev pub IsLimit : ℤ → Type 0
IsLimit (pos n) = n ≤ int_max
IsLimit (negsuc n) = Unit

abbrev Limit : ℕ → Option (ℕ × Text) → Type 0
Limit n none = Unit
Limit n (some (limit, rest)) = (limit ≤ int_max) × (length rest ≤ n)

behind-le : (n : ℕ) (s : Text) → length s ≤ n → length (behind s) ≤ n
behind-le n [] h = h
behind-le n (c ∷ cs) h = omega arith

limit_found-Limit :
    (n : ℕ) (found : Option (ℤ × Text)) → NumberWithin n found → Limit n (limit_found found)
unfolding limit_found
limit_found-Limit n none h = tt
limit_found-Limit n (some (negsuc k, str)) h = tt
limit_found-Limit n (some (pos limit, str)) h =
    if_cases (Limit n) (ltb int_max limit || not (ends_limit str)) none (some (limit, behind str))
      (λ e. tt) (λ e. (ground arith, behind-le n str h))

-- The eight limits that are changed, and the text that is left.
abbrev Pair : (ℕ → ℤ) → ℕ → Option ((ℕ → ℤ) × Text) → Type 0
Pair rates n none = Unit
Pair rates n (some (rates', rest)) =
    (length rest ≤ n)
    × ((j : ℕ) → (8 ≤ j → rates' j ≡ rates j) × (IsLimit (rates j) → IsLimit (rates' j)))

placed-Pair :
    (rates : ℕ → ℤ) (n : ℕ) (category : Option ℕ) (found : Option (ℕ × Text))
    → Category category
    → Limit n found
    → Pair rates n (placed rates category found)
unfolding placed
placed-Pair rates n none found hc hl = tt
placed-Pair rates n (some category) none hc hl = tt
placed-Pair rates n (some category) (some (limit, rest)) hc (top, short) = (
  short,
  λ j. (
    λ far.
        let other : (category == j) ≡ false = ground arith in
        ap (λ (b : Bool). if b then pos limit else rates j) other,
    λ h. if_both IsLimit (category == j) (pos limit) (rates j) top h,
  ),
)

value-Pair :
    (rates : ℕ → ℤ) (n : ℕ) (category : Option ℕ) (value : Option Text)
    → Category category
    → Within n value
    → Pair rates n (elim value as (λ _. Option ((ℕ → ℤ) × Text)) [
      | none ↦ none
      | some value ↦ placed rates category (limit_in value)
    ])
unfolding limit_in
value-Pair rates n category none hc h = tt
value-Pair rates n category (some value) hc h =
    placed-Pair rates n category (limit_in value) hc
      (limit_found-Limit n (strtol 10 value) (strtol-Within 10 n value h))

limit_pair-Pair :
    (rates : ℕ → ℤ) (n : ℕ) (str : Text) → length str ≤ suc n → Pair rates n (limit_pair rates str)
unfolding limit_pair
limit_pair-Pair rates n str h =
    value-Pair rates n (category_of (before_char b':' str)) (after_char b':' str)
      (category_of-Category (before_char b':' str)) (after_char-Within n b':' str h)

-- One round, and what the rounds after it make of the limits.
abbrev after_pair : ℕ → (ℕ → ℤ) → Option ((ℕ → ℤ) × Text) → (ℕ → ℤ) × Bool
after_pair fuel rates none = (rates, false)
after_pair fuel rates (some (rates', rest)) = limit_pairs fuel rates' rest

abbrev InRange : (ℕ → ℤ) → (ℕ → ℤ) → Type 0
InRange before after =
    (j : ℕ) → (8 ≤ j → after j ≡ before j) × (IsLimit (before j) → IsLimit (after j))

after_range :
    (fuel : ℕ) (rates : ℕ → ℤ) (n : ℕ) (found : Option ((ℕ → ℤ) × Text))
    → Pair rates n found
    → ((rates' : ℕ → ℤ) (rest : Text) → InRange rates' (limit_pairs fuel rates' rest).0)
    → InRange rates (after_pair fuel rates found).0
after_range fuel rates n none h later = λ j. (λ far. refl, λ l. l)
after_range fuel rates n (some (rates', rest)) (_, h) later = λ j.
    let (far', in_range') = later rates' rest j in
    (λ far. far' far ∙ (h j).0 far, λ l. in_range' ((h j).1 l))

pairs_range : (fuel : ℕ) (rates : ℕ → ℤ) (str : Text) → InRange rates (limit_pairs fuel rates str).0
unfolding limit_pairs
pairs_range fuel rates [] = λ j. (λ far. refl, λ h. h)
pairs_range zero rates (c ∷ cs) = λ j. (λ far. refl, λ h. h)
pairs_range (suc fuel) rates (c ∷ cs) =
    after_range fuel rates (length cs) (limit_pair rates (c ∷ cs))
      (limit_pair-Pair rates (length cs) (c ∷ cs) (omega arith)) (pairs_range fuel)

after_enough :
    (m k n : ℕ) (rates : ℕ → ℤ) (found : Option ((ℕ → ℤ) × Text))
    → Pair rates n found
    → ((rates' : ℕ → ℤ) (rest : Text)
        → length rest ≤ n
        → limit_pairs m rates' rest ≡ limit_pairs k rates' rest)
    → after_pair m rates found ≡ after_pair k rates found
after_enough m k n rates none h later = refl
after_enough m k n rates (some (rates', rest)) (short, _) later = later rates' rest short

pairs_enough :
    (m k : ℕ) (rates : ℕ → ℤ) (str : Text)
    → length str ≤ m
    → length str ≤ k
    → limit_pairs m rates str ≡ limit_pairs k rates str
unfolding limit_pairs
pairs_enough m k rates [] hm hk = refl
pairs_enough zero k rates (c ∷ cs) hm hk = absurd (omega arith)
pairs_enough (suc m) zero rates (c ∷ cs) hm hk = absurd (omega arith)
pairs_enough (suc m) (suc k) rates (c ∷ cs) hm hk =
    after_enough m k (length cs) rates (limit_pair rates (c ∷ cs))
      (limit_pair-Pair rates (length cs) (c ∷ cs) (omega arith))
      (λ rates' rest short. pairs_enough m k rates' rest (omega arith) (omega arith))

-- Whatever the text is, only the eight limits of the array are written, and each stays unset or an
-- `int` that is not negative if it was; a round for each character is enough to read the text.
pub parse_rate_limit_lem :
    (rates : ℕ → ℤ) (str : Text)
    → ((j : ℕ)
        → (8 ≤ j → (parse_rate_limit rates str).0 j ≡ rates j)
          × (IsLimit (rates j) → IsLimit ((parse_rate_limit rates str).0 j)))
      × ((extra : ℕ) → limit_pairs (length str + extra) rates str ≡ parse_rate_limit rates str)
unfolding parse_rate_limit
parse_rate_limit_lem rates str = (
  pairs_range (length str) rates str,
  λ extra. pairs_enough (length str + extra) (length str) rates str (omega arith) (omega arith),
)
