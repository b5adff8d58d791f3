-- ===== src/Dwarf/Expressions.antt =====
-- `parseExpression` of src/dwarf.cpp, as a machine over the bytes.
use async_profiler.Base.{
  ℕ, zero, suc, ◌+◌, ◌-◌, ◌%◌, ◌^◌, true, false, ◌||◌, Option, none, some, if◌then◌else◌, ltb, ◌==◌,
  ◌>>=◌,
}
use async_profiler.Dwarf.{word_mod, get8, get16, get32, get_leb, get_sleb}

-- The local variables of `parseExpression`.
pub record Expression : Type 0 where
  pub pc_off : ℕ
  pub tos : ℕ
  pub ptr : ℕ

abbrev pub push_tos : Expression → ℕ × ℕ → Option Expression
push_tos e (v, ptr) = some (record e { tos = v; ptr = ptr })

-- The sign of the lowest 8 or 16 bits, extended to 32.
abbrev pub sign_extend : ℕ → ℕ → ℕ
sign_extend bits v = if ltb v (2 ^ (bits - 1)) then v else word_mod - 2 ^ bits + v

module _ (memory : ℕ → ℕ) (fuel : ℕ) where
  -- An operation of an expression; `none` inside for one that is not known.
  unfoldable pub expression_step : ℕ → Expression → Option (Option Expression)
  expression_step op e =
      if op == 0x80
      then get_sleb memory fuel e.ptr >>= (λ (v, p). some (some (record e { pc_off = v; ptr = p })))
      else if op == 0x08
      then some (push_tos e (get8 memory e.ptr))
      else if op == 0x09
      then some (push_tos e (sign_extend 8 (get8 memory e.ptr).0, e.ptr + 1))
      else if op == 0x0a
      then some (push_tos e (get16 memory e.ptr))
      else if op == 0x0b
      then some (push_tos e (sign_extend 16 (get16 memory e.ptr).0, e.ptr + 2))
      else if (op == 0x0c) || (op == 0x0d)
      then some (push_tos e (get32 memory e.ptr))
      else if op == 0x10
      then get_leb memory fuel e.ptr >>= (λ v. some (push_tos e v))
      else if op == 0x11
      then get_sleb memory fuel e.ptr >>= (λ v. some (push_tos e v))
      else if op == 0x1c
      then some (some (record e { pc_off = (e.pc_off + word_mod - e.tos) % word_mod }))
      else if op == 0x22
      then some (some (record e { pc_off = (e.pc_off + e.tos) % word_mod }))
      else some none

  -- The loop of `parseExpression`: the offset, and the place behind the expression.
  unfoldable pub expression_loop : ℕ → ℕ → Expression → Option (ℕ × ℕ)
  unfolding expression_step
  expression_loop zero end e = none
  expression_loop (suc rounds) end e = elim (ltb e.ptr end) [
    | false ↦ some (e.pc_off, e.ptr)
    | true ↦ do
      r ← expression_step (memory e.ptr) (record e { ptr = e.ptr + 1 })
      elim r [ none ↦ some (0, end) | some e' ↦ expression_loop rounds end e' ]
  ]

  unfoldable pub parse_expression : ℕ → Option (ℕ × ℕ)
  unfolding expression_loop
  parse_expression ptr = do
    (len, p) ← get_leb memory fuel ptr
    expression_loop (suc len) (p + len) (record { pc_off = 0; tos = 0; ptr = p })
