-- ===== src/Dwarf/Reading.antt =====
-- The `get` methods of src/dwarf.h, and its constants for x86-64.
use async_profiler.Base.{
  ℕ, zero, suc, ◌+◌, ◌-◌, ◌*◌, ◌%◌, ◌^◌, Option, none, some, if◌then◌else◌, ltb, ◌==◌, ◌&&◌, not,
  bit_and, bit_or,
}

abbrev pub word_mod : ℕ
word_mod = 2 ^ 32

abbrev pub dw_reg_plt : ℕ
dw_reg_plt = 128

abbrev pub dw_reg_invalid : ℕ
dw_reg_invalid = 255

abbrev pub dw_pc_offset : ℕ
dw_pc_offset = 1

abbrev pub dw_same_fp : ℕ
dw_same_fp = 0x80000000

abbrev pub dw_stack_slot : ℕ
dw_stack_slot = 8

abbrev pub dw_reg_fp : ℕ
dw_reg_fp = 6

abbrev pub dw_reg_sp : ℕ
dw_reg_sp = 7

abbrev pub dw_reg_pc : ℕ
dw_reg_pc = 16

abbrev pub empty_frame_size : ℕ
empty_frame_size = dw_stack_slot

abbrev pub linked_frame_size : ℕ
linked_frame_size = 2 * dw_stack_slot

abbrev pub initial_pc_offset : ℕ
initial_pc_offset = word_mod - empty_frame_size

module _ (memory : ℕ → ℕ) where
  unfoldable pub get8 : ℕ → ℕ × ℕ
  get8 ptr = (memory ptr, ptr + 1)

  unfoldable pub get16 : ℕ → ℕ × ℕ
  get16 ptr = (memory ptr + memory (ptr + 1) * 2 ^ 8, ptr + 2)

  unfoldable pub get32 : ℕ → ℕ × ℕ
  get32 ptr = (
    memory ptr + memory (ptr + 1) * 2 ^ 8 + memory (ptr + 2) * 2 ^ 16 + memory (ptr + 3) * 2 ^ 24,
    ptr + 4,
  )

  unfoldable pub get64 : ℕ → ℕ × ℕ
  unfolding get32
  get64 ptr = ((get32 ptr).0 + (get32 (ptr + 4)).0 * 2 ^ 32, ptr + 8)

  -- The sum of the place and a signed offset that stands there, in 64 bits.
  unfoldable pub get_rel_addr : ℕ → ℕ × ℕ
  unfolding get32
  get_rel_addr ptr =
      let n = (get32 ptr).0 in
      ((if ltb n (2 ^ 31) then ptr + n else ptr + n + 2 ^ 64 - 2 ^ 32) % 2 ^ 64, ptr + 4)

  -- The loop of `getLeb`, with its shift and its result so far.
  unfoldable pub get_leb_from : ℕ → ℕ → ℕ → ℕ → Option (ℕ × ℕ)
  get_leb_from zero shift result ptr = none
  get_leb_from (suc fuel) shift result ptr =
      let b = memory ptr in
      let result' = bit_or result (bit_and b 0x7f * 2 ^ shift % word_mod) in
      let rest = get_leb_from fuel (shift + 7) result' (ptr + 1) in
      if bit_and b 0x80 == 0 then some (result', ptr + 1) else rest

  unfoldable pub get_leb : ℕ → ℕ → Option (ℕ × ℕ)
  unfolding get_leb_from
  get_leb fuel ptr = get_leb_from fuel 0 0 ptr

  -- `if ((b & 0x40) != 0 && (shift += 7) < 32) result |= -1 << shift`
  unfoldable pub extend_sign : ℕ → ℕ → ℕ → ℕ
  extend_sign shift b result =
      if not (bit_and b 0x40 == 0) && ltb (shift + 7) 32
      then bit_or result (word_mod - 2 ^ (shift + 7))
      else result

  unfoldable pub get_sleb_from : ℕ → ℕ → ℕ → ℕ → Option (ℕ × ℕ)
  unfolding extend_sign
  get_sleb_from zero shift result ptr = none
  get_sleb_from (suc fuel) shift result ptr =
      let b = memory ptr in
      let result' = bit_or result (bit_and b 0x7f * 2 ^ shift % word_mod) in
      let rest = get_sleb_from fuel (shift + 7) result' (ptr + 1) in
      if bit_and b 0x80 == 0 then some (extend_sign shift b result', ptr + 1) else rest

  unfoldable pub get_sleb : ℕ → ℕ → Option (ℕ × ℕ)
  unfolding get_sleb_from
  get_sleb fuel ptr = get_sleb_from fuel 0 0 ptr

  unfoldable pub skip_leb : ℕ → ℕ → Option ℕ
  skip_leb zero ptr = none
  skip_leb (suc fuel) ptr =
      let rest = skip_leb fuel (ptr + 1) in
      if bit_and (memory ptr) 0x80 == 0 then some (ptr + 1) else rest
