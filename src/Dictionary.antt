-- ===== src/Dictionary.antt =====
-- src/dictionary.cpp and src/dictionary.h: the append-only table of names, run by one thread.
-- The tables stand in a memory where a pointer is the number of the table, in the order of their
-- creation, and the root is table 0. A key is a text, without 0 bytes; memory for keys and tables is
-- always granted, as the code assumes.
pub mod Contents
pub mod Cells
pub mod Lookup
pub mod Names
mod Tests
use async_profiler.Base.{
  ℕ, zero, suc, ◌+◌, ◌*◌, ◌/◌, ◌%◌, ◌^◌, Bool, true, false, ◌&&◌, List, [], ◌∷◌, Option, none, some,
  if◌then◌else◌, ◌==◌, ltb, bit_or, bit_xor,
}
use async_profiler.Base.Texts.{Text, text_eq}

abbrev pub row_bits : ℕ
row_bits = 7

abbrev pub rows : ℕ
rows = 128

abbrev pub cells : ℕ
cells = 3

abbrev pub table_capacity : ℕ
table_capacity = 384

abbrev pub Key : Type 0
Key = Option Text

-- A table: the keys of a row and a cell, the next table of a row, and the number of its first cell.
pub record DictTable : Type 0 where
  pub keys : ℕ → ℕ → Key
  pub next : ℕ → Option ℕ
  pub base_index : ℕ

pub record Dictionary : Type 0 where
  pub tables : ℕ → DictTable
  pub count : ℕ
  pub base_index : ℕ

-- What calloc leaves.
abbrev pub no_table : DictTable
no_table = record { keys = λ r c. none; next = λ r. none; base_index = 0 }

unfoldable pub index : DictTable → ℕ → ℕ → ℕ
index table row col = (table.base_index + col * 2 ^ row_bits + row) % 2 ^ 32

-- The constructor, and what `clear` leaves.
abbrev pub new : Dictionary
new = record { tables = λ t. record no_table { base_index = 1 }; count = 1; base_index = 1 }

-- `(unsigned int)` of a signed character.
abbrev pub extended : ℕ → ℕ
extended c = if ltb c 128 then c else c + 0xffffff00

unfoldable pub hash_from : ℕ → Text → ℕ
hash_from h [] = h
hash_from h (c ∷ cs) = hash_from (bit_xor h (extended c) * 16777619 % 2 ^ 32) cs

unfoldable pub hash : Text → ℕ
unfolding hash_from
hash key = hash_from 2166136261 key

-- `(h >> ROW_BITS) | (h << (32 - ROW_BITS))`
unfoldable pub rotate : ℕ → ℕ
rotate h = bit_or (h / 2 ^ row_bits) (h * 2 ^ 25 % 2 ^ 32)

-- What the loop over the cells of a row ends with.
pub data Scan : Type 0 where
  free found : ℕ → Scan
  full : Scan

-- One cell: it is free, holds the key, or the scan goes on.
unfoldable pub scan_cell : Key → Text → ℕ → Scan → Scan
scan_cell none key c later = free c
scan_cell (some candidate) key c later = if text_eq candidate key then found c else later

-- The cells from `c` on, `n` of them.
unfoldable pub scan : ℕ → ℕ → (ℕ → Key) → Text → Scan
unfolding scan_cell text_eq
scan zero c row key = full
scan (suc n) c row key = scan_cell (row c) key c (scan n (suc c) row key)

abbrev pub scan_row : Dictionary → Text → ℕ → ℕ → Scan
scan_row d key t h = scan cells 0 ((d.tables t).keys (h % rows)) key

-- Table `t` of the memory is set.
unfoldable pub with_table : Dictionary → ℕ → DictTable → Dictionary
with_table d t table = record d { tables = λ s. if t == s then table else d.tables s }

-- `row->keys[c] = new_key`
unfoldable pub put_key : Dictionary → ℕ → ℕ → ℕ → Text → Dictionary
unfolding with_table
put_key d t r c key = with_table d t (record (d.tables t) {
  keys = λ row cell. if (r == row) && (c == cell) then some key else (d.tables t).keys row cell;
})

-- A new table behind row `r` of table `t`.
unfoldable pub add_table : Dictionary → ℕ → ℕ → Dictionary
unfolding with_table
add_table d t r =
    let base : ℕ = (d.base_index + table_capacity) % 2 ^ 32 in
    let linked = with_table d t (record (d.tables t) {
      next = λ row. if r == row then some d.count else (d.tables t).next row;
    }) in
    let grown = with_table linked d.count (record no_table { base_index = base }) in
    record grown { count = suc d.count; base_index = base }

-- What a round does with the end of its scan and the link of its row; `go` are the later rounds.
unfoldable pub after_scan :
    (ℕ → Dictionary → Option (ℕ × Dictionary))
    → Dictionary
    → Text
    → ℕ
    → ℕ
    → Scan
    → Option ℕ
    → Option (ℕ × Dictionary)
unfolding index put_key add_table
after_scan go d key t row (found c) link = some (index (d.tables t) row c, d)
after_scan go d key t row (free c) link = some (index (d.tables t) row c, put_key d t row c key)
after_scan go d key t row full (some n) = go n d
after_scan go d key t row full none = go d.count (add_table d t row)

-- The loop of `lookup`; `none` when the rounds run out.
unfoldable pub lookup_from : ℕ → Text → ℕ → ℕ → Dictionary → Option (ℕ × Dictionary)
unfolding scan after_scan rotate
lookup_from zero key t h d = none
lookup_from (suc fuel) key t h d =
    after_scan (λ n d'. lookup_from fuel key n (rotate h) d') d key t (h % rows)
      (scan_row d key t h) ((d.tables t).next (h % rows))

-- A round for each table, one more for a new one, and one at the root.
unfoldable pub lookup : Text → Dictionary → Option (ℕ × Dictionary)
unfolding lookup_from hash
lookup key d = lookup_from (suc (suc d.count)) key 0 (hash key) d
