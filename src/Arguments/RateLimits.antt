-- ===== src/Arguments/RateLimits.antt =====
-- `parseRateLimit` of src/arguments.cpp: `name:limit` pairs with a `;` between them.
use async_profiler.Base.{
  ℕ, zero, suc, ◌+◌, ◌-◌, ◌^◌, Bool, true, false, not, ◌&&◌, ◌||◌, [], ◌∷◌, Option, none, some,
  if◌then◌else◌, ltb, ◌==◌, length, get_or, drop,
}
use async_profiler.Base.Int.{ℤ, pos, negsuc}
use async_profiler.Base.Texts.{Text, codes, starts_with, after_char, before_char, strtol}

abbrev pub category_names : Text
category_names = codes "0:cpu,1:alloc,2:lock,3:wall,4:nativemem,5:nativelock,6:trace,7:span"

-- `strstr(text, part) - text`
unfoldable pub index_of : Text → Text → Option ℕ
index_of part [] = if starts_with part [] then some 0 else none
index_of part (x ∷ xs) = elim (starts_with part (x ∷ xs)) [
  | true ↦ some 0
  | false ↦ elim (index_of part xs) [ none ↦ none | some i ↦ some (suc i) ]
]

-- The category of a name: the first place of the name, behind a colon and before a comma.
unfoldable pub category_at : Text → ℕ → Option ℕ
category_at name i =
    if not (get_or category_names (i + 1) 0 == b':')
      || ltb b',' (get_or category_names (i + 2 + length name) 0)
    then none
    else some (get_or category_names i 0 - b'0')

unfoldable pub category_of : Text → Option ℕ
unfolding index_of category_at
category_of name = elim (index_of name (drop 2 category_names)) [
  | none ↦ none
  | some i ↦ category_at name i
]

abbrev pub int_max : ℕ
int_max = 2 ^ 31 - 1

-- `*str > ';'` on signed characters: those from 128 on are negative.
abbrev pub ends_limit : Text → Bool
ends_limit [] = true
ends_limit (c ∷ cs) = not (ltb b';' c && ltb c 128)

abbrev pub behind : Text → Text
behind [] = []
behind (c ∷ cs) = cs

unfoldable pub limit_found : Option (ℤ × Text) → Option (ℕ × Text)
limit_found none = none
limit_found (some (negsuc n, str)) = none
limit_found (some (pos limit, str)) =
    if ltb int_max limit || not (ends_limit str) then none else some (limit, behind str)

-- A limit, and the text behind the character that ends it.
unfoldable pub limit_in : Text → Option (ℕ × Text)
unfolding limit_found
limit_in value = limit_found (strtol 10 value)

abbrev pub set_limit : (ℕ → ℤ) → ℕ → ℕ → ℕ → ℤ
set_limit rates category limit j = if category == j then pos limit else rates j

unfoldable pub placed : (ℕ → ℤ) → Option ℕ → Option (ℕ × Text) → Option ((ℕ → ℤ) × Text)
placed rates none found = none
placed rates (some category) none = none
placed rates (some category) (some (limit, rest)) = some (set_limit rates category limit, rest)

-- One pair: the limits with the new one, and the rest of the text.
unfoldable pub limit_pair : (ℕ → ℤ) → Text → Option ((ℕ → ℤ) × Text)
unfolding category_of limit_in placed
limit_pair rates str = elim (after_char b':' str) [
  | none ↦ none
  | some value ↦ placed rates (category_of (before_char b':' str)) (limit_in value)
]

-- The loop; a pair that is refused leaves the limits of those before it.
unfoldable pub limit_pairs : ℕ → (ℕ → ℤ) → Text → (ℕ → ℤ) × Bool
unfolding limit_pair
limit_pairs fuel rates [] = (rates, true)
limit_pairs zero rates (c ∷ cs) = (rates, false)
limit_pairs (suc fuel) rates (c ∷ cs) = elim (limit_pair rates (c ∷ cs)) [
  | none ↦ (rates, false)
  | some (rates', rest) ↦ limit_pairs fuel rates' rest
]

-- Each pair takes two characters at least, so that a round for each character is enough.
unfoldable pub parse_rate_limit : (ℕ → ℤ) → Text → (ℕ → ℤ) × Bool
unfolding limit_pairs
parse_rate_limit rates str = limit_pairs (length str) rates str
