-- ===== src/Dwarf/Instructions.antt =====
-- `parseInstructions` of src/dwarf.cpp, as a machine over the bytes.
use async_profiler.Base.{
  ℕ, zero, suc, ◌+◌, ◌-◌, ◌*◌, ◌/◌, ◌%◌, ◌^◌, true, false, ◌||◌, Option, none, some, if◌then◌else◌,
  ltb, ◌==◌, ◌>>=◌, bit_and, bit_or,
}
use async_profiler.Dwarf.{
  word_mod, dw_reg_plt, dw_reg_invalid, dw_pc_offset, dw_same_fp, dw_stack_slot, dw_reg_fp,
  dw_reg_sp, dw_reg_pc, empty_frame_size, initial_pc_offset, get8, get16, get32, get_leb, get_sleb,
  skip_leb,
}
use async_profiler.Dwarf.Expressions.{parse_expression}
use async_profiler.Dwarf.Records.{Rule, Table, add_record}

-- The local variables of `parseInstructions`, with `_ptr` and the table.
pub record Machine : Type 0 where
  pub ptr : ℕ
  pub loc : ℕ
  pub rule : Rule
  pub remembered : Rule
  pub table : Table

-- What one instruction does: the loop goes on, or the method returns at once.
pub data Outcome : Type 0 where
  goes_on : Machine → Outcome
  gives_up : Machine → Outcome

abbrev pub initial_rule : Rule
initial_rule = record {
  cfa_reg = dw_reg_sp;
  cfa_off = empty_frame_size;
  fp_off = dw_same_fp;
  pc_off = initial_pc_offset;
}

abbrev pub at : Machine → ℕ → Machine
at m ptr = record m { ptr = ptr }

abbrev pub with_rule : Machine → ℕ → Rule → Option Outcome
with_rule m ptr rule = some (goes_on (record m { ptr = ptr; rule = rule }))

module _ (memory : ℕ → ℕ) (code_align data_align : ℕ) (fuel : ℕ) where
  -- `addRecord` at the present place, then `loc += n * code_align`.
  unfoldable pub advance : Machine → ℕ × ℕ → Option Outcome
  advance m (n, ptr) = some (
      goes_on (record m {
        ptr = ptr;
        loc = (m.loc + n * code_align) % word_mod;
        table = add_record m.table m.loc m.rule;
      }))

  -- The rule of a saved register: FP and PC are kept, others only skipped.
  unfoldable pub saved_at : Machine → ℕ → Option Outcome
  saved_at m reg =
      if reg == dw_reg_fp
      then get_leb memory fuel m.ptr
        >>= (λ (v, p). with_rule m p (record (m.rule) { fp_off = v * data_align % word_mod }))
      else if reg == dw_reg_pc
      then get_leb memory fuel m.ptr
        >>= (λ (v, p). with_rule m p (record (m.rule) { pc_off = v * data_align % word_mod }))
      else skip_leb memory fuel m.ptr >>= (λ p. some (goes_on (at m p)))

  unfoldable pub saved_at_sf : Machine → ℕ → Option Outcome
  saved_at_sf m reg =
      if reg == dw_reg_fp
      then get_sleb memory fuel m.ptr
        >>= (λ (v, p). with_rule m p (record (m.rule) { fp_off = v * data_align % word_mod }))
      else if reg == dw_reg_pc
      then get_sleb memory fuel m.ptr
        >>= (λ (v, p). with_rule m p (record (m.rule) { pc_off = v * data_align % word_mod }))
      else skip_leb memory fuel m.ptr >>= (λ p. some (goes_on (at m p)))

  unfoldable pub skip_two : Machine → Option Outcome
  skip_two m = do
    p ← skip_leb memory fuel m.ptr
    q ← skip_leb memory fuel p
    some (goes_on (at m q))

  -- The value of PC is that of an expression; `pc_off << 1` with the lowest bit set says so.
  unfoldable pub pc_expression : Machine → ℕ → Option Outcome
  unfolding parse_expression
  pc_expression m ptr = do
    (off, q) ← parse_expression memory fuel ptr
    let found = record (m.rule) { fp_off = bit_or dw_pc_offset (off * 2 % word_mod) }
    with_rule m q (if off == 0 then m.rule else found)

  unfoldable pub skip_block : Machine → ℕ → Option Outcome
  skip_block m ptr = do (len, q) ← get_leb memory fuel ptr; some (goes_on (at m (q + len)))

  unfoldable pub val_expression : Machine → Option Outcome
  unfolding pc_expression skip_block
  val_expression m = do
    (reg, p) ← get_leb memory fuel m.ptr
    (if reg == dw_reg_pc then pc_expression m p else skip_block m p)

  -- The cases of the inner `switch (op)` from DW_CFA_def_cfa_sf on.
  unfoldable pub signed_step : ℕ → Machine → Option Outcome
  unfolding skip_two val_expression
  signed_step op m =
      if op == 0x12
      then get_leb memory fuel m.ptr >>= (λ (reg, p). get_sleb memory fuel p >>= (λ (off, q).
        with_rule m q (record (m.rule) { cfa_reg = reg; cfa_off = off * data_align % word_mod })))
      else if op == 0x13
      then get_sleb memory fuel m.ptr
        >>= (λ (off, p). with_rule m p (record (m.rule) { cfa_off = off * data_align % word_mod }))
      else if (op == 0x14) || (op == 0x15)
      then skip_two m
      else if op == 0x16
      then val_expression m
      else if op == 0x2e
      then skip_leb memory fuel m.ptr >>= (λ p. some (goes_on (at m p)))
      else some (gives_up m)

  -- The cases of the inner `switch (op)` from DW_CFA_def_cfa to DW_CFA_offset_extended_sf.
  unfoldable pub cfa_step : ℕ → Machine → Option Outcome
  unfolding saved_at_sf signed_step
  cfa_step op m =
      if op == 0xc
      then get_leb memory fuel m.ptr >>= (λ (reg, p).
        get_leb memory fuel p
        >>= (λ (off, q). with_rule m q (record (m.rule) { cfa_reg = reg; cfa_off = off })))
      else if op == 0xd
      then get_leb memory fuel m.ptr
        >>= (λ (reg, p). with_rule m p (record (m.rule) { cfa_reg = reg }))
      else if op == 0xe
      then get_leb memory fuel m.ptr
        >>= (λ (off, p). with_rule m p (record (m.rule) { cfa_off = off }))
      else if op == 0xf
      then get_leb memory fuel m.ptr >>= (λ (len, p). with_rule m (p + len) (record (m.rule) {
        cfa_reg = if len == 11 then dw_reg_plt else dw_reg_invalid;
        cfa_off = dw_stack_slot;
      }))
      else if op == 0x10
      then skip_leb memory fuel m.ptr
        >>= (λ p. get_leb memory fuel p >>= (λ (len, q). some (goes_on (at m (q + len)))))
      else if op == 0x11
      then get_leb memory fuel m.ptr >>= (λ (reg, p). saved_at_sf (at m p) reg)
      else signed_step op m

  -- The inner `switch (op)` for the instructions below 0x40.
  unfoldable pub extended_step : ℕ → ℕ → Machine → Option Outcome
  unfolding advance saved_at skip_two cfa_step
  extended_step end op m =
      if (op == 0x0) || (op == 0x1)
      then some (goes_on (at m end))
      else if op == 0x2
      then advance m (get8 memory m.ptr)
      else if op == 0x3
      then advance m (get16 memory m.ptr)
      else if op == 0x4
      then advance m (get32 memory m.ptr)
      else if op == 0x5
      then get_leb memory fuel m.ptr >>= (λ (reg, p). saved_at (at m p) reg)
      else if (op == 0x6) || ((op == 0x7) || (op == 0x8))
      then get_leb memory fuel m.ptr >>= (λ (reg, p).
        with_rule m p
          (if reg == dw_reg_fp then record (m.rule) { fp_off = dw_same_fp } else m.rule))
      else if op == 0x9
      then skip_two m
      else if op == 0xa
      then some (goes_on (record m { remembered = m.rule }))
      else if op == 0xb
      then some (goes_on (record m { rule = m.remembered }))
      else cfa_step op m

  -- One round of the loop: `op >> 6` tells the instructions with an operand in the low six bits.
  unfoldable pub instruction_step : ℕ → Machine → Option Outcome
  unfolding extended_step
  instruction_step end m =
      let op = memory m.ptr in
      let low = bit_and op 0x3f in
      let next = at m (m.ptr + 1) in
      if op / 2 ^ 6 == 0
      then extended_step end op next
      else if op / 2 ^ 6 == 1
      then advance next (low, m.ptr + 1)
      else if op / 2 ^ 6 == 2
      then saved_at next low
      else if low == dw_reg_fp
      then with_rule m (m.ptr + 1) (record (m.rule) { fp_off = dw_same_fp })
      else if low == dw_reg_pc
      then with_rule m (m.ptr + 1) (record (m.rule) { pc_off = initial_pc_offset })
      else some (goes_on next)

  -- The loop, and the `addRecord` after it: the place and the table at the end.
  unfoldable pub instruction_loop : ℕ → ℕ → Machine → Option (ℕ × Table)
  unfolding instruction_step
  instruction_loop zero end m = none
  instruction_loop (suc rounds) end m = elim (ltb m.ptr end) [
    | false ↦ some (m.ptr, add_record m.table m.loc m.rule)
    | true ↦ do
      r ← instruction_step end m
      elim r [ goes_on m' ↦ instruction_loop rounds end m' | gives_up m' ↦ some (m'.ptr, m'.table) ]
  ]

  -- `parseInstructions`: each round reads a byte at least, so that there are at most `end - ptr`.
  unfoldable pub parse_instructions : ℕ → ℕ → ℕ → Table → Option (ℕ × Table)
  unfolding instruction_loop
  parse_instructions ptr loc end table = instruction_loop (suc (end - ptr)) end (record {
    ptr = ptr;
    loc = loc;
    rule = initial_rule;
    remembered = initial_rule;
    table = table;
  })
