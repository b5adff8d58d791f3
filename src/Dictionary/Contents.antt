-- ===== src/Dictionary/Contents.antt =====
-- What a dictionary (src/dictionary.cpp) holds, and when one has grown out of another.
use async_profiler.Base.{
  ℕ, zero, suc, ◌+◌, ◌*◌, ◌%◌, ◌^◌, ◌<◌, ◌≡◌, refl, ◌∙◌, ap, arith, true, false, none, some, ◌⊎◌,
  Bool-cases, inl, inr,
}
use async_profiler.Base.Texts.{Text, text_eq}
use async_profiler.Dictionary.{
  Dictionary, DictTable, Key, Scan, found, full, scan, scan_cell, scan_row, index, rotate, rows,
  cells,
}

-- The walk for a key from a table, with the hash rotated at each step, ends at the cell of an index.
pub data Has (d : Dictionary) (key : Text) : ℕ → ℕ → ℕ → Type 0 where
  here :
      (t h c i : ℕ)
      → scan_row d key t h ≡ found c
      → index (d.tables t) (h % rows) c ≡ i
      → Has d key t h i
  below :
      (t h n i : ℕ)
      → scan_row d key t h ≡ full
      → (d.tables t).next (h % rows) ≡ some n
      → Has d key n (rotate h) i
      → Has d key t h i

-- Links lead to later tables, and table t begins with the index 1 + 384 t, as a 32-bit word.
pub record IsValid (d : Dictionary) : Type 0 where
  pub rooted : 0 < d.count
  pub links : (t r n : ℕ) → t < d.count → (d.tables t).next r ≡ some n → (t < n) × (n < d.count)
  pub bases : (t : ℕ) → t < d.count → (d.tables t).base_index ≡ (1 + 384 * t) % 2 ^ 32
  pub counter : (d.base_index + 384) % 2 ^ 32 ≡ (1 + 384 * d.count) % 2 ^ 32

abbrev pub RowGrows : (ℕ → Key) → (ℕ → Key) → Type 0
RowGrows row row' = (c : ℕ) (k : Text) → row c ≡ some k → row' c ≡ some k

-- Nothing that is set is changed.
abbrev pub TableGrows : DictTable → DictTable → Type 0
TableGrows a b =
    ((r : ℕ) → RowGrows (a.keys r) (b.keys r))
    × (((r n : ℕ) → a.next r ≡ some n → b.next r ≡ some n) × (b.base_index ≡ a.base_index))

abbrev pub Grows : Dictionary → Dictionary → Type 0
Grows d d' = (t : ℕ) → t < d.count → TableGrows (d.tables t) (d'.tables t)

-- What a cell that is found or that lets the scan go on says of its key.
pub cell_found :
    (cell : Key) (key : Text) (c j : ℕ) (later : Scan)
    → scan_cell cell key c later ≡ found j
    → ((k : Text) × (cell ≡ some k) × (text_eq k key ≡ true) × (c ≡ j))
      ⊎ ((k : Text) × (cell ≡ some k) × (text_eq k key ≡ false) × (later ≡ found j))
unfolding scan_cell
cell_found none key c j later e = absurd (ground arith)
cell_found (some k) key c j later e = elim (Bool-cases (text_eq k key)) [
  | inl same ↦ inl (k, refl, same, ground arith)
  | inr other ↦ inr (k, refl, other, ground arith)
]

cell_full :
    (cell : Key) (key : Text) (c : ℕ) (later : Scan)
    → scan_cell cell key c later ≡ full
    → (k : Text) × (cell ≡ some k) × (text_eq k key ≡ false) × (later ≡ full)
unfolding scan_cell
cell_full none key c later e = absurd (ground arith)
cell_full (some k) key c later e = elim (Bool-cases (text_eq k key)) [
  | inl same ↦ absurd (ground arith)
  | inr other ↦ (k, refl, other, ground arith)
]

-- A scan that does not end in a free cell ends alike in a row that has grown.
pub scan_found :
    (n c j : ℕ) (row row' : ℕ → Key) (key : Text)
    → RowGrows row row'
    → scan n c row key ≡ found j
    → scan n c row' key ≡ found j
unfolding scan
scan_found zero c j row row' key g e = e
scan_found (suc n) c j row row' key g e =
    elim (cell_found (row c) key c j (scan n (suc c) row key) e) [
      | inl (k, set, same, at) ↦ rw (g c k set, same) (ap found at)
      | inr (k, set, other, later) ↦
          rw (g c k set, other) (scan_found n (suc c) j row row' key g later)
    ]

pub scan_full :
    (n c : ℕ) (row row' : ℕ → Key) (key : Text)
    → RowGrows row row'
    → scan n c row key ≡ full
    → scan n c row' key ≡ full
unfolding scan
scan_full zero c row row' key g e = e
scan_full (suc n) c row row' key g e =
    let (k, set, other, later) = cell_full (row c) key c (scan n (suc c) row key) e in
    rw (g c k set, other) (scan_full n (suc c) row row' key g later)

pub Has-Grows :
    (d d' : Dictionary) (key : Text) (t h i : ℕ)
    → IsValid d
    → Grows d d'
    → t < d.count
    → Has d key t h i
    → Has d' key t h i
unfolding index
Has-Grows d d' key t h i valid g low (here _ _ c _ e at) =
    let (cells_grow, (links_grow, same_base)) = g t low in
    here t h c i (scan_found cells 0 c _ _ key (cells_grow (h % rows)) e)
      (ap (λ (b : ℕ). (b + c * 2 ^ 7 + h % rows) % 2 ^ 32) same_base ∙ at)
Has-Grows d d' key t h i valid g low (below _ _ n _ e link deeper) =
    let (cells_grow, (links_grow, same_base)) = g t low in
    below t h n i (scan_full cells 0 _ _ key (cells_grow (h % rows)) e)
      (links_grow (h % rows) n link)
      (Has-Grows d d' key n (rotate h) i valid g (valid.links t (h % rows) n low link).1 deeper)
