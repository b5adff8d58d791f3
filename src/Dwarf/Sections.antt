-- ===== src/Dwarf/Sections.antt =====
-- The methods of `DwarfParser` (src/dwarf.cpp) that walk the .eh_frame and .debug_frame sections. The
-- fuel is that of the loops over bytes; `none` is no value of the code. In `_ptr += getLeb()` the
-- call comes first. A rejected header of .eh_frame leaves the parser as it is, with a warning.
use async_profiler.Base.{
  ℕ, zero, suc, ◌+◌, ◌-◌, ◌%◌, ◌^◌, Bool, true, false, ◌||◌, not, List, [], Option, none, some,
  if◌then◌else◌, ltb, leb, ◌==◌, ◌>>=◌, length, bit_and,
}
use async_profiler.CodeCache.{FrameDesc}
use async_profiler.Dwarf.{
  word_mod, dw_reg_fp, dw_stack_slot, linked_frame_size, get8, get32, get64, get_rel_addr, get_leb,
  get_sleb,
}
use async_profiler.Dwarf.Records.{Rule, Table, add_record}
use async_profiler.Dwarf.Instructions.{parse_instructions}

pub record DwarfParser : Type 0 where
  pub table : Table
  pub last_cie : ℕ
  pub code_align : ℕ
  pub data_align : ℕ

-- The constructor; sizeof(instruction_t) is 1 on x86-64.
unfoldable pub new : DwarfParser
new = record {
  table = record { rows = []; capacity = 128 };
  last_cie = 2 ^ 64 - 1;
  code_align = 1;
  data_align = word_mod - 8;
}

-- The rule between functions: that of a frame with a saved FP.
abbrev pub default_rule : Rule
default_rule = record {
  cfa_reg = dw_reg_fp;
  cfa_off = linked_frame_size;
  fp_off = word_mod - linked_frame_size;
  pc_off = word_mod - linked_frame_size + dw_stack_slot;
}

-- A length that is 0 or announces a 64-bit one.
abbrev pub is_skipped : ℕ → Bool
is_skipped len = (len == 0) || (len == 0xffffffff)

module _ (memory : ℕ → ℕ) (image_base : ℕ) (fuel : ℕ) where
  -- `while (*_ptr++) {}`
  unfoldable pub skip_text : ℕ → ℕ → Option ℕ
  skip_text zero ptr = none
  skip_text (suc rounds) ptr =
      let rest = skip_text rounds (ptr + 1) in if memory ptr == 0 then some (ptr + 1) else rest

  unfoldable pub parse_alignments : DwarfParser → ℕ → Option DwarfParser
  parse_alignments d ptr = do
    (code_align, p) ← get_leb memory fuel ptr
    (data_align, q) ← get_sleb memory fuel p
    some (record d { code_align = code_align; data_align = data_align })

  unfoldable pub parse_cie : DwarfParser → ℕ → Option DwarfParser
  unfolding skip_text parse_alignments
  parse_cie d ptr =
      let (cie_len, p) = get32 memory ptr in
      if is_skipped cie_len
      then some d
      else (skip_text fuel (p + 5) >>= (λ q. parse_alignments d q))

  -- The part of `parseFde` after the CIE: the range of the function, and its instructions.
  unfoldable pub parse_range : DwarfParser → ℕ → ℕ → Option DwarfParser
  parse_range d fde_start fde_len = do
    let (start, p) = get_rel_addr memory (fde_start + 4)
    let range_start = (start + 2 ^ 64 - image_base) % word_mod
    let (range_len, q) = get32 memory p
    (skipped, r) ← get_leb memory fuel q
    (end, t) ←
        parse_instructions memory d.code_align d.data_align fuel (r + skipped) range_start
          (fde_start + fde_len) d.table
    some (record d { table = add_record t ((range_start + range_len) % word_mod) default_rule })

  unfoldable pub parse_fde : DwarfParser → ℕ → Option DwarfParser
  unfolding parse_cie parse_range
  parse_fde d ptr =
      let (fde_len, fde_start) = get32 memory ptr in
      let cie_offset = (get32 memory fde_start).0 in
      let with_cie =
        if length d.table.rows == 0 then parse_cie d (fde_start - cie_offset) else some d in
      if is_skipped fde_len then some d else (with_cie >>= (λ e. parse_range e fde_start fde_len))

  -- The loop of `parseEhFrame` over the entries that are left of the table at `entry`.
  unfoldable pub parse_entries : ℕ → DwarfParser → ℕ → ℕ → Option DwarfParser
  unfolding parse_fde
  parse_entries zero d hdr entry = some d
  parse_entries (suc left) d hdr entry = do
    let n = (get32 memory entry).0
    let offset = if ltb n (2 ^ 31) then hdr + n else hdr + n - word_mod
    e ← parse_fde d offset
    parse_entries left e hdr (entry + 8)

  unfoldable pub is_supported : ℕ → Bool
  is_supported hdr = not (
      not (memory hdr == 1)
      || (not (bit_and (memory (hdr + 1)) 0x7 == 0x3)
          || (not (bit_and (memory (hdr + 2)) 0x7 == 0x3)
              || not (bit_and (memory (hdr + 3)) 0xf7 == 0x33))))

  unfoldable pub parse_eh_frame : DwarfParser → ℕ → Option DwarfParser
  unfolding parse_entries is_supported
  parse_eh_frame d hdr =
      let n = (get32 memory (hdr + 8)).0 in
      let fde_count = if ltb n (2 ^ 31) then n else 0 in
      let parsed = parse_entries fde_count d hdr (hdr + 16) in
      if is_supported hdr then parsed else some d

  unfoldable pub parse_debug_cie : DwarfParser → ℕ → Option DwarfParser
  unfolding skip_text parse_alignments
  parse_debug_cie d ptr = do
    let (cie_len, p) = get32 memory ptr
    let q = if cie_len == 0xffffffff then p + 16 else p + 4
    let (version, r) = get8 memory q
    s ← skip_text fuel r
    parse_alignments d (if leb 4 version then s + 2 else s)

  -- The linked CIE is parsed only if it is not the one that was parsed last.
  unfoldable pub link_cie : DwarfParser → ℕ → ℕ → Option DwarfParser
  unfolding parse_debug_cie
  link_cie d section cie_ptr =
      let parsed = do
        e ← parse_debug_cie d (section + cie_ptr)
        some (record e { last_cie = cie_ptr })
      in if cie_ptr == d.last_cie then some d else parsed

  -- A function at the address 0 is a leftover: its instructions are not parsed.
  unfoldable pub parse_debug_range : DwarfParser → ℕ → ℕ → Option DwarfParser
  parse_debug_range d ptr fde_end =
      let (start, p) = get64 memory ptr in
      let range_start = (start + 2 ^ 64 - image_base) % word_mod in
      let parsed = do
        (end, t) ←
            parse_instructions memory d.code_align d.data_align fuel (p + 8) range_start fde_end
              d.table
        some (record d { table = t })
      in if range_start == 0 then some d else parsed

  -- The next place and the parser; a length that does not fit ends the section.
  unfoldable pub parse_debug_fde : DwarfParser → ℕ → ℕ → ℕ → Option (ℕ × DwarfParser)
  unfolding link_cie parse_debug_range
  parse_debug_fde d section section_end ptr =
      let (len32, p) = get32 memory ptr in
      let dwarf64 = len32 == 0xffffffff in
      let (fde_len, q) = if dwarf64 then get64 memory p else (len32, p) in
      let fde_end = (q + fde_len) % 2 ^ 64 in
      let (cie_ptr, r) = if dwarf64 then get64 memory q else get32 memory q in
      let is_cie = cie_ptr == (if dwarf64 then 2 ^ 64 - 1 else 0xffffffff) in
      let parsed = do
        e ← link_cie d section cie_ptr
        f ← parse_debug_range e r fde_end
        some (fde_end, f)
      in if leb fde_end q || ltb section_end fde_end
        then some (section_end, d)
        else if is_cie
        then some (fde_end, d)
        else parsed

  -- The loop of `parseDebugFrame`; each round ends past the place where it starts.
  unfoldable pub parse_debug_fdes : ℕ → DwarfParser → ℕ → ℕ → ℕ → Option DwarfParser
  unfolding parse_debug_fde
  parse_debug_fdes zero d section section_end ptr = none
  parse_debug_fdes (suc rounds) d section section_end ptr = elim (ltb ptr section_end) [
    | false ↦ some d
    | true ↦
        parse_debug_fde d section section_end ptr
        >>= (λ (next, e). parse_debug_fdes rounds e section section_end next)
  ]

  -- `parseDebugFrame`, with the C library's `qsort` for the order of places as a parameter, on rows
  -- that stand latest first before it and after it.
  unfoldable pub parse_debug_frame :
      (List FrameDesc → List FrameDesc) → DwarfParser → ℕ → ℕ → Option DwarfParser
  unfolding parse_debug_fdes
  parse_debug_frame qsort d start size = do
    e ← parse_debug_fdes (suc size) d start (start + size) start
    some (record e { table = record (e.table) { rows = qsort e.table.rows } })
