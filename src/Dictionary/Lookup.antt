-- ===== src/Dictionary/Lookup.antt =====
-- `Dictionary::lookup` (src/dictionary.cpp) and the contents of its tables.
use async_profiler.Base.{
  ℕ, zero, suc, ◌+◌, ◌*◌, ◌%◌, ◌^◌, ◌≤◌, ◌<◌, ◌≡◌, refl, sym, ◌∙◌, ap, subst, arith, true, false,
  Option, none, some, ◌==◌, Bool-cases, inl, inr, ◌⊎◌, if_both, ==_iff, [], ◌∷◌,
}
use async_profiler.Base.Texts.{Text, text_eq}
use async_profiler.Dictionary.{
  Dictionary, DictTable, Key, Scan, free, found, full, scan, scan_cell, scan_row, index, rotate,
  rows, cells, put_key, add_table, with_table, after_scan, lookup_from,
}
use async_profiler.Dictionary.Contents.{
  Has, here, below, IsValid, Grows, RowGrows, TableGrows, scan_full,
}
use async_profiler.Dictionary.Cells.{
  put_key-Grows, put_key-IsValid, add_table-Grows, add_table-IsValid, added, add_link, same_grows,
}

text_eq_self : (s : Text) → text_eq s s ≡ true
unfolding text_eq
text_eq_self [] = refl
text_eq_self (c ∷ cs) = ground (arith, text_eq_self cs)

cell_free :
    (cell : Key) (key : Text) (c j : ℕ) (later : Scan)
    → scan_cell cell key c later ≡ free j
    → ((cell ≡ none) × (c ≡ j))
      ⊎ ((k : Text) × (cell ≡ some k) × (text_eq k key ≡ false) × (later ≡ free j))
unfolding scan_cell
cell_free none key c j later e = inl (refl, ground arith)
cell_free (some k) key c j later e = elim (Bool-cases (text_eq k key)) [
  | inl same ↦ absurd (ground arith)
  | inr other ↦ inr (k, refl, other, ground arith)
]

-- A scan ends in a free cell that is free.
scan_free : (n c j : ℕ) (row : ℕ → Key) (key : Text) → scan n c row key ≡ free j → row j ≡ none
unfolding scan
scan_free zero c j row key e = absurd (ground arith)
scan_free (suc n) c j row key e = elim (cell_free (row c) key c j (scan n (suc c) row key) e) [
  | inl (open_cell, at) ↦ ap row (sym at) ∙ open_cell
  | inr (k, _, _, later) ↦ scan_free n (suc c) j row key later
]

-- With the key in the free cell, the scan finds it there.
scan_put :
    (n c j : ℕ) (row row' : ℕ → Key) (key : Text)
    → RowGrows row row'
    → row' j ≡ some key
    → scan n c row key ≡ free j
    → scan n c row' key ≡ found j
unfolding scan
scan_put zero c j row row' key g set e = absurd (ground arith)
scan_put (suc n) c j row row' key g set e =
    elim (cell_free (row c) key c j (scan n (suc c) row key) e) [
      | inl (_, at) ↦ rw (ap row' at ∙ set, text_eq_self key) (ap found at)
      | inr (k, taken, other, later) ↦
          rw (g c k taken, other) (scan_put n (suc c) j row row' key g set later)
    ]

stored :
    (d : Dictionary) (t r c : ℕ) (key : Text) → ((put_key d t r c key).tables t).keys r c ≡ some key
unfolding put_key with_table
stored d t r c key =
    let same_t : (t == t) ≡ true = (==_iff t t).1 refl in
    let same_r : (r == r) ≡ true = (==_iff r r).1 refl in
    let same_c : (c == c) ≡ true = (==_iff c c).1 refl in rw (same_t, same_r, same_c) refl

-- What a lookup from a table leaves.
abbrev pub Outcome : Dictionary → Text → ℕ → ℕ → Option (ℕ × Dictionary) → Type 0
Outcome d key t h none = ⊥
Outcome d key t h (some (i, d')) =
    IsValid d' × (Grows d d' × ((d.count ≤ d'.count) × Has d' key t h i))

put_base :
    (d : Dictionary) (t r c : ℕ) (key : Text)
    → ((put_key d t r c key).tables t).base_index ≡ (d.tables t).base_index
unfolding put_key with_table
put_base d t r c key =
    if_both (λ (b : DictTable). b.base_index ≡ (d.tables t).base_index) (t == t) _ _ refl refl

count_added : (d : Dictionary) (t r : ℕ) → (add_table d t r).count ≡ suc d.count
unfolding add_table
count_added d t r = refl

empty_scan :
    (d : Dictionary) (key : Text) (t r h : ℕ) → scan_row (add_table d t r) key d.count h ≡ free 0
unfolding scan
empty_scan d key t r h = ap (λ (b : DictTable). scan cells 0 (b.keys (h % rows)) key) (added d t r)

TableGrows-trans : (a b c : DictTable) → TableGrows a b → TableGrows b c → TableGrows a c
TableGrows-trans a b c (keys_ab, (links_ab, base_ab)) (keys_bc, (links_bc, base_bc)) = (
  λ r cell k e. keys_bc r cell k (keys_ab r cell k e),
  (λ r n e. links_bc r n (links_ab r n e), base_bc ∙ base_ab),
)

module _ (d : Dictionary) (key : Text) (t h : ℕ) (valid : IsValid d) (low : t < d.count) where
  found_outcome :
      (c : ℕ)
      → scan_row d key t h ≡ found c
      → Outcome d key t h (some (index (d.tables t) (h % rows) c, d))
  found_outcome c e =
      (valid, ((λ s inside. same_grows (d.tables s)), (omega arith, here t h c _ e refl)))

  free_outcome :
      (c : ℕ)
      → scan_row d key t h ≡ free c
      → Outcome d key t h (some (index (d.tables t) (h % rows) c, put_key d t (h % rows) c key))
  unfolding index put_key with_table
  free_outcome c e =
      let r : ℕ = h % rows in
      let grows : Grows d (put_key d t r c key) =
        put_key-Grows d t r c key (scan_free cells 0 c ((d.tables t).keys r) key e) in
      let set : scan_row (put_key d t r c key) key t h ≡ found c =
        scan_put cells 0 c _ _ key ((grows t low).0 r) (stored d t r c key) e in
      let same : index ((put_key d t r c key).tables t) r c ≡ index (d.tables t) r c =
        ap (λ (b : ℕ). (b + c * 2 ^ 7 + r) % 2 ^ 32) (put_base d t r c key) in
      (put_key-IsValid d t r c key valid, (grows, (omega arith, here t h c _ set same)))

  -- A result from the next table is one from this table.
  below_outcome :
      (n : ℕ) (result : Option (ℕ × Dictionary))
      → scan_row d key t h ≡ full
      → (d.tables t).next (h % rows) ≡ some n
      → Outcome d key n (rotate h) result
      → Outcome d key t h result
  below_outcome n none e link outcome = outcome
  below_outcome n (some (i, d')) e link (valid', (grows, (more, has))) =
      let (cells_grow, (links_grow, same_base)) = grows t low in
      (
        valid',
        (
          grows,
          (
            more,
            below t h n i (scan_full cells 0 _ _ key (cells_grow (h % rows)) e)
                (links_grow (h % rows) n link) has,
          ),
        ),
      )

  -- So is one from a table that is added behind this one.
  grown_outcome :
      (result : Option (ℕ × Dictionary))
      → scan_row d key t h ≡ full
      → (d.tables t).next (h % rows) ≡ none
      → Outcome (add_table d t (h % rows)) key d.count (rotate h) result
      → Outcome d key t h result
  grown_outcome none e link outcome = outcome
  grown_outcome (some (i, d')) e link (valid', (grows, (more, has))) =
      let r : ℕ = h % rows in
      let grown : (add_table d t r).count ≡ suc d.count = count_added d t r in
      let first : Grows d (add_table d t r) = add_table-Grows d t r link in
      let both : Grows d d' = λ s inside.
        TableGrows-trans (d.tables s) ((add_table d t r).tables s) (d'.tables s) (first s inside)
          (grows s (omega arith)) in
      let linked : (d'.tables t).next r ≡ some d.count =
        (grows t (omega arith)).1.0 r d.count (add_link d t r low) in
      (
        valid',
        (
          both,
          (
            omega arith,
            below t h d.count i (scan_full cells 0 _ _ key ((both t low).0 r) e) linked has,
          ),
        ),
      )

  -- A round, whatever its scan ends with, if the later rounds are right.
  round_outcome :
      (go : ℕ → Dictionary → Option (ℕ × Dictionary)) (s : Scan) (link : Option ℕ)
      → scan_row d key t h ≡ s
      → (d.tables t).next (h % rows) ≡ link
      → ((n : ℕ) → t < n → n < d.count → Outcome d key n (rotate h) (go n d))
      → Outcome
          (add_table d t (h % rows))
          key
          d.count
          (rotate h)
          (go d.count (add_table d t (h % rows)))
      → Outcome d key t h (after_scan go d key t (h % rows) s link)
  unfolding after_scan
  round_outcome go (found c) link e el later fresh = found_outcome c e
  round_outcome go (free c) link e el later fresh = free_outcome c e
  round_outcome go full (some n) e el later fresh =
      let (after, inside) = valid.links t (h % rows) n low el in
      below_outcome n (go n d) e el (later n after inside)
  round_outcome go full none e el later fresh =
      grown_outcome (go d.count (add_table d t (h % rows))) e el fresh

-- The round in a new table ends in its first cell.
fresh_outcome :
    (fuel : ℕ) (d : Dictionary) (key : Text) (t r h : ℕ)
    → IsValid d
    → t < d.count
    → Outcome
        (add_table d t r)
        key
        d.count
        h
        (lookup_from (suc fuel) key d.count h (add_table d t r))
unfolding lookup_from
fresh_outcome fuel d key t r h valid low =
    let b : Dictionary = add_table d t r in
    let e : scan_row b key d.count h ≡ free 0 = empty_scan d key t r h in
    let go : ℕ → Dictionary → Option (ℕ × Dictionary) =
      λ n d'. lookup_from fuel key n (rotate h) d' in
    let inside : d.count < b.count = omega (arith, count_added d t r) in
    subst
      (λ (s : Scan).
        Outcome b key d.count h
          (after_scan go b key d.count (h % rows) s ((b.tables d.count).next (h % rows))))
      (sym e) (free_outcome b key d.count h (add_table-IsValid d t r low valid) inside 0 e)

pub Outcome-lookup_from :
    (fuel : ℕ) (d : Dictionary) (key : Text) (t h : ℕ)
    → IsValid d
    → t < d.count
    → d.count < fuel + t
    → Outcome d key t h (lookup_from fuel key t h d)
unfolding lookup_from
Outcome-lookup_from zero d key t h valid low enough = absurd (omega arith)
Outcome-lookup_from (suc zero) d key t h valid low enough = absurd (omega arith)
Outcome-lookup_from (suc (suc fuel)) d key t h valid low enough =
    round_outcome d key t h valid low (λ n d'. lookup_from (suc fuel) key n (rotate h) d')
      (scan_row d key t h) ((d.tables t).next (h % rows)) refl refl
      (λ n after inside.
        Outcome-lookup_from (suc fuel) d key n (rotate h) valid inside (omega arith))
      (fresh_outcome fuel d key t (h % rows) (rotate h) valid low)
