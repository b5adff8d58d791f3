-- ===== src/Dwarf/Records.antt =====
-- `addRecord` and `addRecordRaw` of src/dwarf.cpp. The rows of the table stand latest first, so that
-- `_prev` is the head; `_count` is their number. `realloc` is taken to succeed, as the code does.
use async_profiler.Base.{
  ℕ, ◌*◌, ◌%◌, ◌^◌, Bool, ◌&&◌, List, [], ◌∷◌, if◌then◌else◌, leb, ◌==◌, length, bit_or,
}
use async_profiler.CodeCache.{FrameDesc}
use async_profiler.Dwarf.{word_mod}

-- How the caller's frame is found: the CFA's register and offset, and where FP and PC were saved.
pub record Rule : Type 0 where
  pub cfa_reg : ℕ
  pub cfa_off : ℕ
  pub fp_off : ℕ
  pub pc_off : ℕ

pub record Table : Type 0 where
  pub rows : List FrameDesc
  pub capacity : ℕ

-- `cfa_reg | cfa_off << 8`
unfoldable pub cfa_of : Rule → ℕ
cfa_of rule = bit_or rule.cfa_reg (rule.cfa_off * 2 ^ 8 % word_mod)

unfoldable pub frame_of : ℕ → Rule → FrameDesc
unfolding cfa_of
frame_of loc rule = record {
  loc = loc;
  cfa = cfa_of rule;
  fp_off = rule.fp_off;
  pc_off = rule.pc_off;
}

unfoldable pub add_record_raw : Table → FrameDesc → Table
add_record_raw t f = record {
  rows = f ∷ t.rows;
  capacity = if leb t.capacity (length t.rows) then t.capacity * 2 else t.capacity;
}

abbrev pub has_same_rule : FrameDesc → FrameDesc → Bool
has_same_rule f g = (f.cfa == g.cfa) && ((f.fp_off == g.fp_off) && (f.pc_off == g.pc_off))

-- A row for the same place is taken back first (`--_count`), and one that says the same stays.
unfoldable pub add_frame : Table → List FrameDesc → FrameDesc → Table
unfolding add_record_raw
add_frame t [] f = add_record_raw t f
add_frame t (prev ∷ rows) f =
    if prev.loc == f.loc
    then add_record_raw (record t { rows = rows }) f
    else if has_same_rule prev f
    then t
    else add_record_raw t f

unfoldable pub add_record : Table → ℕ → Rule → Table
unfolding add_frame frame_of
add_record t loc rule = add_frame t t.rows (frame_of loc rule)
