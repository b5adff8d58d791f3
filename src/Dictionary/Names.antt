-- ===== src/Dictionary/Names.antt =====
-- The indices that `Dictionary::lookup` (src/dictionary.cpp) gives to names.
use async_profiler.Base.{
  ℕ, zero, suc, ◌+◌, ◌*◌, ◌%◌, ◌^◌, ◌≤◌, ◌<◌, ◌≡◌, ◌≢◌, refl, sym, ◌∙◌, ap, subst, arith, true,
  Option, none, some, inl, inr, [], ◌∷◌,
}
use mathlib.Core.Path.{ap₂}
use mathlib.Core.Option.{some-injective}
use async_profiler.Base.Texts.{Text, text_eq}
use async_profiler.Dictionary.{
  Dictionary, Key, Scan, found, scan, index, rotate, rows, cells, after_scan, lookup_from, lookup,
  hash,
}
use async_profiler.Dictionary.Contents.{Has, here, below, IsValid, Has-Grows, cell_found}
use async_profiler.Dictionary.Lookup.{Outcome, Outcome-lookup_from}

-- The walk from the root finds the key at the index.
abbrev pub Named : Dictionary → Text → ℕ → Type 0
Named d key i = Has d key 0 (hash key) i

text_eq_same : (a b : Text) → text_eq a b ≡ true → a ≡ b
unfolding text_eq
text_eq_same [] [] e = refl
text_eq_same [] (y ∷ ys) e = absurd (ground arith)
text_eq_same (x ∷ xs) [] e = absurd (ground arith)
text_eq_same (x ∷ xs) (y ∷ ys) e =
    let head : x ≡ y = ground arith in
    ap₂ (λ (c : ℕ) (cs : Text). c ∷ cs) head (text_eq_same xs ys (ground arith))

-- A scan finds a key in a cell that holds it.
scan_holds :
    (n c j : ℕ) (row : ℕ → Key) (key : Text)
    → scan n c row key ≡ found j
    → (j < c + n) × (row j ≡ some key)
unfolding scan
scan_holds zero c j row key e = absurd (ground arith)
scan_holds (suc n) c j row key e = elim (cell_found (row c) key c j (scan n (suc c) row key) e) [
  | inl (k, set, same, at) ↦
      (omega (arith, at), ap row (sym at) ∙ set ∙ ap some (text_eq_same k key same))
  | inr (k, _, _, later) ↦
      let (low, holds) = scan_holds n (suc c) j row key later in (omega (arith, low), holds)
]

-- A cell with the key, whose number as a 32-bit word is the index.
abbrev Cell : Dictionary → Text → ℕ → Type 0
Cell d key i =
    (t : ℕ) × (r : ℕ) × (c : ℕ) × (t < d.count)
    × (r < 128)
    × (c < 3)
    × ((d.tables t).keys r c ≡ some key)
    × (i ≡ (1 + 384 * t + c * 128 + r) % 2 ^ 32)

Has-Cell :
    (d : Dictionary) (key : Text) (t h i : ℕ)
    → IsValid d
    → t < d.count
    → Has d key t h i
    → Cell d key i
unfolding index
Has-Cell d key t h i valid low (here _ _ c _ e at) =
    let (small, holds) = scan_holds cells 0 c ((d.tables t).keys (h % rows)) key e in
    (t, h % rows, c, low, omega arith, omega arith, holds, omega (arith, at, valid.bases t low))
Has-Cell d key t h i valid low (below _ _ n _ e link deeper) =
    Has-Cell d key n (rotate h) i valid (valid.links t (h % rows) n low link).1 deeper

-- Two names of a dictionary never have one index, as long as its indices fit in 32 bits.
Named-unique :
    (d : Dictionary) (a b : Text) (i : ℕ)
    → IsValid d
    → 1 + 384 * d.count ≤ 2 ^ 32
    → Named d a i
    → Named d b i
    → a ≡ b
Named-unique d a b i valid fits has_a has_b =
    let (t, r, c, low, small_r, small_c, at_a, here_a) =
      Has-Cell d a 0 (hash a) i valid valid.rooted has_a in
    let (t', r', c', low', small_r', small_c', at_b, here_b) =
      Has-Cell d b 0 (hash b) i valid valid.rooted has_b in
    let same_t : t ≡ t' = omega arith in
    let same_r : r ≡ r' = omega arith in
    let same_c : c ≡ c' = omega arith in
    let one_cell : (d.tables t).keys r c ≡ (d.tables t').keys r' c' =
      ap (λ (x : ℕ). (d.tables x).keys r c) same_t
      ∙ ap₂ (λ (x y : ℕ). (d.tables t').keys x y) same_r same_c in
    some-injective a b (sym at_a ∙ one_cell ∙ at_b)

-- A name that is known is found again, and nothing changes.
known :
    (fuel : ℕ) (d : Dictionary) (key : Text) (t h i : ℕ)
    → IsValid d
    → t < d.count
    → d.count < fuel + t
    → Has d key t h i
    → lookup_from fuel key t h d ≡ some (i, d)
unfolding lookup_from after_scan
known zero d key t h i valid low enough has = absurd (omega arith)
known (suc fuel) d key t h i valid low enough (here _ _ c _ e at) =
    ap
      (λ (s : Scan).
        after_scan (λ n d'. lookup_from fuel key n (rotate h) d') d key t (h % rows) s
          ((d.tables t).next (h % rows)))
      e
    ∙ ap (λ (x : ℕ). some (x, d)) at
known (suc fuel) d key t h i valid low enough (below _ _ n _ e link deeper) =
    let (after, inside) = valid.links t (h % rows) n low link in
    ap₂
      (λ (s : Scan) (l : Option ℕ).
        after_scan (λ n d'. lookup_from fuel key n (rotate h) d') d key t (h % rows) s l)
      e link
    ∙ known fuel d key n (rotate h) i valid inside (omega arith) deeper

-- What holds of the result of a lookup.
abbrev pub Looked : Dictionary → Text → ℕ → Dictionary → Type 0
Looked d key i d' =
    IsValid d'
    × (Named d' key i
        × (((k : Text) (j : ℕ) → Named d k j → Named d' k j)
            × ((j : ℕ) → Named d key j → (j ≡ i) × (d ≡ d'))))

looked :
    (d : Dictionary) (key : Text) (result : Option (ℕ × Dictionary))
    → IsValid d
    → result ≡ lookup key d
    → Outcome d key 0 (hash key) result
    → (i : ℕ) × (d' : Dictionary) × (lookup key d ≡ some (i, d')) × Looked d key i d'
unfolding lookup
looked d key none valid e outcome = absurd outcome
looked d key (some (i, d')) valid e (valid', (grows, (more, has))) =
    let again : (j : ℕ) → Named d key j → (j ≡ i) × (d ≡ d') = λ j named.
      let same : (j, d) ≡ (i, d') =
        some-injective (j, d) (i, d')
          (sym (
              known (suc (suc d.count)) d key 0 (hash key) j valid valid.rooted (omega arith) named)
            ∙ sym e) in
      (ap (λ (p : ℕ × Dictionary). p.0) same, ap (λ (p : ℕ × Dictionary). p.1) same) in
    let kept : (k : Text) (j : ℕ) → Named d k j → Named d' k j =
      λ k j named. Has-Grows d d' k 0 (hash k) j valid grows valid.rooted named in
    (i, d', sym e, (valid', (has, (kept, again))))

-- In a valid dictionary every lookup ends, and refines the abstract one that gives a name an index
-- once and for all: afterwards the key has the index that is returned; every name keeps the index that
-- it had; a key that had an index gets that one, and nothing changes; and the dictionary is valid.
pub lookup-Looked :
    (d : Dictionary) (key : Text)
    → IsValid d
    → (i : ℕ) × (d' : Dictionary) × (lookup key d ≡ some (i, d')) × Looked d key i d'
unfolding lookup
lookup-Looked d key valid =
    looked d key (lookup key d) valid refl
      (Outcome-lookup_from (suc (suc d.count)) d key 0 (hash key) valid valid.rooted (omega arith))

lookup_result :
    (d d' : Dictionary) (key : Text) (i : ℕ)
    → IsValid d
    → lookup key d ≡ some (i, d')
    → Looked d key i d'
lookup_result d d' key i valid e =
    let (j, b, at, outcome) = lookup-Looked d key valid in
    let same : (j, b) ≡ (i, d') = some-injective (j, b) (i, d') (sym at ∙ e) in
    subst (λ (p : ℕ × Dictionary). Looked d key p.0 p.1) same outcome

-- In a valid dictionary, two names that are looked up one after the other get different indices, as
-- long as the indices of all tables fit in 32 bits.
pub lookup_distinct :
    (d d1 d2 : Dictionary) (a b : Text) (i j : ℕ)
    → IsValid d
    → a ≢ b
    → lookup a d ≡ some (i, d1)
    → lookup b d1 ≡ some (j, d2)
    → 1 + 384 * d2.count ≤ 2 ^ 32
    → i ≢ j
lookup_distinct d d1 d2 a b i j valid other first second fits same =
    let (valid1, (named_a, _)) = lookup_result d d1 a i valid first in
    let (valid2, (named_b, (kept, _))) = lookup_result d1 d2 b j valid1 second in
    other
      (Named-unique d2 a b i valid2 fits (kept a i named_a) (subst (Named d2 b) (sym same) named_b))
