-- ===== src/Dwarf/Tests.antt =====
-- Runs of the parser of unwinding tables on concrete inputs.
use async_profiler.Base.{
  ℕ, ◌+◌, ◌≡◌, ◌≢◌, none, refl, arith, [], ◌∷◌, some, length, if◌then◌else◌, ◌==◌,
}
use async_profiler.Dwarf.{dw_same_fp, get_leb, skip_leb}
use async_profiler.Dwarf.Records.{Rule, Table, frame_of, add_record}
use async_profiler.Dwarf.Compression.{Describes, add_record-Describes}
use async_profiler.Dwarf.Instructions.{parse_instructions}
use async_profiler.Dwarf.Ending.Instructions.{parse_instructions-ne-none}
use async_profiler.Dwarf.Leb.{get_leb-groups}
use async_profiler.ProtoBuffer.VarInt.{groups}

-- 300 in two bytes, from the address 50 on.
abbrev leb_300 : ℕ → ℕ
leb_300 i = if i == 50 then 172 else if i == 51 then 2 else 0

get_leb-groups_example : get_leb leb_300 5 50 ≡ some (300, 50 + length (groups 4 300))
unfolding groups
get_leb-groups_example = get_leb-groups 300 50 leb_300 (omega arith) (refl, (refl, tt))

abbrev entry_rule : Rule
entry_rule = record { cfa_reg = 7; cfa_off = 8; fp_off = dw_same_fp; pc_off = 0xfffffff8 }

abbrev pushed_rule : Rule
pushed_rule = record entry_rule { cfa_off = 16 }

abbrev one_row : Table
one_row = record {
  rows = record { loc = 4096; cfa = 2055; fp_off = dw_same_fp; pc_off = 0xfffffff8 } ∷ [];
  capacity = 128;
}

add_record-Describes_example :
    Describes one_row.rows (frame_of 4100 pushed_rule) (add_record one_row 4100 pushed_rule).rows
add_record-Describes_example = add_record-Describes one_row 4100 pushed_rule (tt, tt) (omega arith)

-- No byte of these has the top bit set: DW_CFA_def_cfa_offset 16, DW_CFA_advance_loc 4, DW_CFA_nop.
abbrev prologue : ℕ → ℕ
prologue i = if i == 70 then 0x0e else if i == 71 then 16 else if i == 72 then 0x44 else 0

prologue_ends : (p : ℕ) → skip_leb prologue 1 p ≢ none
unfolding skip_leb
prologue_ends p = ground arith

parse_instructions-ne-none_example :
    parse_instructions prologue 1 0xfffffff8 1 70 4096 76 one_row ≢ none
parse_instructions-ne-none_example =
    parse_instructions-ne-none prologue 1 0xfffffff8 1 prologue_ends 70 4096 76 one_row
