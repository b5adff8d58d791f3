-- ===== src/Dwarf/Ending/Instructions.antt =====
-- The rounds of the loop of `parseInstructions` (src/dwarf.cpp).
use async_profiler.Base.{
  ℕ, zero, suc, ◌+◌, ◌-◌, ◌/◌, ◌^◌, ◌≤◌, ◌<◌, ◌≢◌, arith, Option, none, some, if_both, ltb, ◌==◌,
  ◌>>=◌, ◌||◌, bit_and,
}
use mathlib.Core.Option.{some-ne-none}
use async_profiler.Dwarf.{dw_reg_fp, dw_reg_pc, get8, get16, get32, get_leb, get_sleb, skip_leb}
use async_profiler.Dwarf.Expressions.{parse_expression}
use async_profiler.Dwarf.Records.{Table}
use async_profiler.Dwarf.Instructions.{
  Machine, Outcome, goes_on, gives_up, at, advance, saved_at, saved_at_sf, skip_two, pc_expression,
  skip_block, val_expression, signed_step, cfa_step, extended_step, instruction_step,
  instruction_loop, parse_instructions,
}
use async_profiler.Dwarf.Ending.{loop_cases, Goes, skip_then, leb_then, sleb_then}
use async_profiler.Dwarf.Ending.Expressions.{Parses, parse_expression-Parses}

bind_parse-Goes :
    (ptr : ℕ) (o : Option (ℕ × ℕ)) (k : ℕ × ℕ → Option Outcome)
    → Parses ptr o
    → ((v p : ℕ) → ptr ≤ p → Goes ptr (k (v, p)))
    → Goes ptr (o >>= k)
bind_parse-Goes ptr none k h step = h
bind_parse-Goes ptr (some (v, p)) k h step = step v p h

begin_earlier : (ptr q : ℕ) (o : Option Outcome) → ptr ≤ q → Goes q o → Goes ptr o
begin_earlier ptr q none l h = h
begin_earlier ptr q (some (goes_on m)) l h = omega (arith, h)
begin_earlier ptr q (some (gives_up m)) l h = tt

module _ (memory : ℕ → ℕ) (code_align data_align fuel : ℕ)
    (ends : (p : ℕ) → skip_leb memory fuel p ≢ none) where
  skipping :
      (ptr q : ℕ) (k : ℕ → Option Outcome)
      → ((p : ℕ) → q < p → Goes ptr (k p))
      → Goes ptr (skip_leb memory fuel q >>= k)
  skipping ptr q k step = skip_then memory code_align data_align fuel ends ptr q k step

  with_leb :
      (ptr q : ℕ) (k : ℕ × ℕ → Option Outcome)
      → ((v p : ℕ) → q < p → Goes ptr (k (v, p)))
      → Goes ptr (get_leb memory fuel q >>= k)
  with_leb ptr q k step = leb_then memory code_align data_align fuel ends ptr q k step

  with_sleb :
      (ptr q : ℕ) (k : ℕ × ℕ → Option Outcome)
      → ((v p : ℕ) → q < p → Goes ptr (k (v, p)))
      → Goes ptr (get_sleb memory fuel q >>= k)
  with_sleb ptr q k step = sleb_then memory code_align data_align fuel ends ptr q k step

  skip_two-Goes : (m : Machine) → Goes m.ptr (skip_two memory code_align data_align fuel m)
  unfolding skip_two
  skip_two-Goes m =
      skipping m.ptr m.ptr _ (λ p l. skipping m.ptr p _ (λ q l'. omega (arith, l, l')))

  saved_at-Goes :
      (m : Machine) (reg : ℕ) → Goes m.ptr (saved_at memory code_align data_align fuel m reg)
  unfolding saved_at
  saved_at-Goes m reg =
      if_both (Goes m.ptr) (reg == dw_reg_fp) _ _
        (with_leb m.ptr m.ptr _ (λ v p l. omega (arith, l)))
        (if_both (Goes m.ptr) (reg == dw_reg_pc) _ _
          (with_leb m.ptr m.ptr _ (λ v p l. omega (arith, l)))
          (skipping m.ptr m.ptr _ (λ p l. omega (arith, l))))

  saved_at_sf-Goes :
      (m : Machine) (reg : ℕ) → Goes m.ptr (saved_at_sf memory code_align data_align fuel m reg)
  unfolding saved_at_sf
  saved_at_sf-Goes m reg =
      if_both (Goes m.ptr) (reg == dw_reg_fp) _ _
        (with_sleb m.ptr m.ptr _ (λ v p l. omega (arith, l)))
        (if_both (Goes m.ptr) (reg == dw_reg_pc) _ _
          (with_sleb m.ptr m.ptr _ (λ v p l. omega (arith, l)))
          (skipping m.ptr m.ptr _ (λ p l. omega (arith, l))))

  pc_expression-Goes :
      (m : Machine) (ptr : ℕ) → Goes ptr (pc_expression memory code_align data_align fuel m ptr)
  unfolding pc_expression
  pc_expression-Goes m ptr =
      bind_parse-Goes ptr (parse_expression memory fuel ptr) _
        (parse_expression-Parses memory code_align data_align fuel ends ptr) (λ off q l. l)

  skip_block-Goes :
      (m : Machine) (ptr : ℕ) → Goes ptr (skip_block memory code_align data_align fuel m ptr)
  unfolding skip_block
  skip_block-Goes m ptr = with_leb ptr ptr _ (λ len q l. omega (arith, l))

  val_expression-Goes :
      (m : Machine) → Goes m.ptr (val_expression memory code_align data_align fuel m)
  unfolding val_expression
  val_expression-Goes m = with_leb m.ptr m.ptr _ (λ reg p l.
      begin_earlier m.ptr p _ (omega (arith, l))
        (if_both (Goes p) (reg == dw_reg_pc) _ _ (pc_expression-Goes m p) (skip_block-Goes m p)))

  advance-Goes :
      (ptr n p : ℕ) (m : Machine)
      → ptr ≤ p
      → Goes ptr (advance memory code_align data_align fuel m (n, p))
  unfolding advance
  advance-Goes ptr n p m l = l

  -- The cases that are left behind DW_CFA_offset_extended_sf.
  signed_step-Goes :
      (op : ℕ) (m : Machine) → Goes m.ptr (signed_step memory code_align data_align fuel op m)
  unfolding signed_step
  signed_step-Goes op m =
      if_both (Goes m.ptr) (op == 0x12) _ _
        (with_leb m.ptr m.ptr _ (λ reg p l. with_sleb m.ptr p _ (λ off q l'. omega (arith, l, l'))))
        (if_both (Goes m.ptr) (op == 0x13) _ _ (with_sleb m.ptr m.ptr _ (λ v p l. omega (arith, l)))
          (if_both (Goes m.ptr) ((op == 0x14) || (op == 0x15)) _ _ (skip_two-Goes m) (
            if_both (Goes m.ptr) (op == 0x16) _ _ (val_expression-Goes m) (
              if_both (Goes m.ptr) (op == 0x2e) _ _
                (skipping m.ptr m.ptr _ (λ p l. omega (arith, l))) tt))))

  cfa_step-Goes :
      (op : ℕ) (m : Machine) → Goes m.ptr (cfa_step memory code_align data_align fuel op m)
  unfolding cfa_step
  cfa_step-Goes op m =
      if_both (Goes m.ptr) (op == 0xc) _ _
        (with_leb m.ptr m.ptr _ (λ reg p l. with_leb m.ptr p _ (λ off q l'. omega (arith, l, l'))))
        (if_both (Goes m.ptr) (op == 0xd) _ _ (with_leb m.ptr m.ptr _ (λ v p l. omega (arith, l))) (
          if_both (Goes m.ptr) (op == 0xe) _ _ (with_leb m.ptr m.ptr _ (λ v p l. omega (arith, l)))
            (if_both (Goes m.ptr) (op == 0xf) _ _
              (with_leb m.ptr m.ptr _ (λ len p l. omega (arith, l)))
              (if_both (Goes m.ptr) (op == 0x10) _ _
                (skipping m.ptr m.ptr _
                  (λ p l. with_leb m.ptr p _ (λ len q l'. omega (arith, l, l'))))
                (if_both (Goes m.ptr) (op == 0x11) _ _
                  (with_leb m.ptr m.ptr _ (λ reg p l.
                    begin_earlier m.ptr p _ (omega (arith, l)) (saved_at_sf-Goes (at m p) reg)))
                  (signed_step-Goes op m))))))

  extended_step-Goes :
      (end op : ℕ) (m : Machine)
      → m.ptr ≤ end
      → Goes m.ptr (extended_step memory code_align data_align fuel end op m)
  unfolding extended_step get8 get16 get32
  extended_step-Goes end op m h = if_both (Goes m.ptr) ((op == 0x0) || (op == 0x1)) _ _ h (
      if_both (Goes m.ptr) (op == 0x2) _ _
        (advance-Goes m.ptr (get8 memory m.ptr).0 _ m (omega arith))
        (if_both (Goes m.ptr) (op == 0x3) _ _
          (advance-Goes m.ptr (get16 memory m.ptr).0 _ m (omega arith))
          (if_both (Goes m.ptr) (op == 0x4) _ _
            (advance-Goes m.ptr (get32 memory m.ptr).0 _ m (omega arith))
            (if_both (Goes m.ptr) (op == 0x5) _ _
              (with_leb m.ptr m.ptr _ (λ reg p l.
                begin_earlier m.ptr p _ (omega (arith, l)) (saved_at-Goes (at m p) reg)))
              (if_both (Goes m.ptr) ((op == 0x6) || ((op == 0x7) || (op == 0x8))) _ _
                (with_leb m.ptr m.ptr _ (λ reg p l. omega (arith, l)))
                (if_both (Goes m.ptr) (op == 0x9) _ _ (skip_two-Goes m) (
                  if_both (Goes m.ptr) (op == 0xa) _ _ (omega arith)
                    (if_both (Goes m.ptr) (op == 0xb) _ _ (omega arith) (cfa_step-Goes op m)))))))))

  instruction_step-Goes :
      (end : ℕ) (m : Machine)
      → m.ptr < end
      → Goes (m.ptr + 1) (instruction_step memory code_align data_align fuel end m)
  unfolding instruction_step
  instruction_step-Goes end m h =
      let op : ℕ = memory m.ptr in
      let low : ℕ = bit_and op 0x3f in
      let next : Machine = at m (m.ptr + 1) in
      if_both (Goes (m.ptr + 1)) (op / 2 ^ 6 == 0) _ _
        (extended_step-Goes end op next (omega arith))
        (if_both (Goes (m.ptr + 1)) (op / 2 ^ 6 == 1) _ _
          (advance-Goes (m.ptr + 1) low (m.ptr + 1) next (omega arith))
          (if_both (Goes (m.ptr + 1)) (op / 2 ^ 6 == 2) _ _ (saved_at-Goes next low) (
            if_both (Goes (m.ptr + 1)) (low == dw_reg_fp) _ _ (omega arith)
              (if_both (Goes (m.ptr + 1)) (low == dw_reg_pc) _ _ (omega arith) (omega arith)))))

  after_step :
      (rounds ptr end : ℕ) (o : Option Outcome)
      → Goes ptr o
      → ((m : Machine)
          → ptr ≤ m.ptr
          → instruction_loop memory code_align data_align fuel rounds end m ≢ none)
      → (o >>= (λ r. elim r as (λ _. Option (ℕ × Table)) [
        | goes_on m' ↦ instruction_loop memory code_align data_align fuel rounds end m'
        | gives_up m' ↦ some (m'.ptr, m'.table)
      ]))
        ≢ none
  after_step rounds ptr end none h step = λ e. h
  after_step rounds ptr end (some (goes_on m)) h step = step m h
  after_step rounds ptr end (some (gives_up m)) h step = some-ne-none (m.ptr, m.table)

  instruction_loop-ne-none :
      (rounds end : ℕ) (m : Machine)
      → end - m.ptr < rounds
      → instruction_loop memory code_align data_align fuel rounds end m ≢ none
  unfolding instruction_loop
  instruction_loop-ne-none zero end m h = absurd (omega (arith, h))
  instruction_loop-ne-none (suc rounds) end m h =
      loop_cases (λ r. r ≢ none) (ltb m.ptr end) _ _
        (λ more.
          after_step rounds (m.ptr + 1) end
            (instruction_step memory code_align data_align fuel end m)
            (instruction_step-Goes end m (ground arith))
            (λ m' l. instruction_loop-ne-none rounds end m' (ground arith)))
        (λ done. some-ne-none _)

  -- `parseInstructions` ends for any bytes, of the instructions and of the expressions in them, with a
  -- round for each byte from the first instruction to the end and one more, if the fuel of the readers
  -- is more than the length of every run of bytes that have the top bit set.
  pub parse_instructions-ne-none :
      (ptr loc end : ℕ) (table : Table)
      → parse_instructions memory code_align data_align fuel ptr loc end table ≢ none
  unfolding parse_instructions
  parse_instructions-ne-none ptr loc end table =
      instruction_loop-ne-none (suc (end - ptr)) end _ (omega arith)
