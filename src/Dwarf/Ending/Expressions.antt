-- ===== src/Dwarf/Ending/Expressions.antt =====
-- The rounds of the loop of `parseExpression` (src/dwarf.cpp).
use async_profiler.Base.{
  ℕ, zero, suc, ◌+◌, ◌-◌, ◌≤◌, ◌<◌, ◌≢◌, arith, Option, none, some, if_both, ltb, ◌==◌, ◌>>=◌, ◌||◌,
}
use async_profiler.Dwarf.{get8, get16, get32, get_leb, get_sleb, skip_leb}
use async_profiler.Dwarf.Expressions.{
  Expression, expression_step, expression_loop, parse_expression,
}
use async_profiler.Dwarf.Ending.{loop_cases, Reads, get_leb-Reads, get_sleb-Reads}

-- An operation that is known leaves off at a place that is not before `ptr`.
abbrev Steps : ℕ → Option (Option Expression) → Type 0
Steps ptr none = ⊥
Steps ptr (some none) = Unit
Steps ptr (some (some e)) = ptr ≤ e.ptr

-- The value of an expression, and a place that is not before `ptr`.
abbrev pub Parses : ℕ → Option (ℕ × ℕ) → Type 0
Parses ptr none = ⊥
Parses ptr (some (v, p)) = ptr ≤ p

bind-Steps :
    (ptr : ℕ) (o : Option (ℕ × ℕ)) (k : ℕ × ℕ → Option (Option Expression))
    → Reads ptr o
    → ((v p : ℕ) → ptr < p → Steps ptr (k (v, p)))
    → Steps ptr (o >>= k)
bind-Steps ptr none k h step = h
bind-Steps ptr (some (v, p)) k h step = step v p h

bind-Parses :
    (ptr : ℕ) (o : Option (ℕ × ℕ)) (k : ℕ × ℕ → Option (ℕ × ℕ))
    → Reads ptr o
    → ((v p : ℕ) → ptr < p → Parses ptr (k (v, p)))
    → Parses ptr (o >>= k)
bind-Parses ptr none k h step = h
bind-Parses ptr (some (v, p)) k h step = step v p h

parse_earlier : (ptr q : ℕ) (o : Option (ℕ × ℕ)) → ptr ≤ q → Parses q o → Parses ptr o
parse_earlier ptr q none l h = h
parse_earlier ptr q (some (v, p)) l h = omega (arith, h)

module _ (memory : ℕ → ℕ) (code_align data_align fuel : ℕ)
    (ends : (p : ℕ) → skip_leb memory fuel p ≢ none) where
  expression_step-Steps : (op : ℕ) (e : Expression) → Steps e.ptr (expression_step memory fuel op e)
  unfolding expression_step get8 get16 get32
  expression_step-Steps op e =
      let lebs = get_leb-Reads memory code_align data_align fuel ends e.ptr in
      let slebs = get_sleb-Reads memory code_align data_align fuel ends e.ptr in
      if_both (Steps e.ptr) (op == 0x80) _ _
        (bind-Steps e.ptr (get_sleb memory fuel e.ptr) _ slebs (λ v p l. omega (arith, l)))
        (if_both (Steps e.ptr) (op == 0x08) _ _ (omega arith) (
          if_both (Steps e.ptr) (op == 0x09) _ _ (omega arith) (
            if_both (Steps e.ptr) (op == 0x0a) _ _ (omega arith) (
              if_both (Steps e.ptr) (op == 0x0b) _ _ (omega arith) (
                if_both (Steps e.ptr) ((op == 0x0c) || (op == 0x0d)) _ _ (omega arith) (
                  if_both (Steps e.ptr) (op == 0x10) _ _
                    (bind-Steps e.ptr (get_leb memory fuel e.ptr) _ lebs
                      (λ v p l. omega (arith, l)))
                    (if_both (Steps e.ptr) (op == 0x11) _ _
                      (bind-Steps e.ptr (get_sleb memory fuel e.ptr) _ slebs
                        (λ v p l. omega (arith, l)))
                      (if_both (Steps e.ptr) (op == 0x1c) _ _ (omega arith)
                        (if_both (Steps e.ptr) (op == 0x22) _ _ (omega arith) tt)))))))))

  after_step :
      (rounds ptr end : ℕ) (o : Option (Option Expression))
      → ptr ≤ end
      → Steps ptr o
      → ((e : Expression) → ptr ≤ e.ptr → Parses ptr (expression_loop memory fuel rounds end e))
      → Parses ptr (
          o >>= (λ r. elim r as (λ _. Option (ℕ × ℕ)) [
            | none ↦ some (0, end)
            | some e' ↦ expression_loop memory fuel rounds end e'
          ]))
  after_step rounds ptr end none l h step = h
  after_step rounds ptr end (some none) l h step = l
  after_step rounds ptr end (some (some e)) l h step = step e h

  expression_loop-Parses :
      (rounds end : ℕ) (e : Expression)
      → end - e.ptr < rounds
      → Parses e.ptr (expression_loop memory fuel rounds end e)
  unfolding expression_loop
  expression_loop-Parses zero end e h = absurd (omega (arith, h))
  expression_loop-Parses (suc rounds) end e h =
      loop_cases (Parses e.ptr) (ltb e.ptr end) _ _
        (λ more.
          let next : Expression = record e { ptr = e.ptr + 1 } in
          parse_earlier e.ptr (e.ptr + 1) _ (omega arith) (
            after_step rounds (e.ptr + 1) end (expression_step memory fuel (memory e.ptr) next)
              (ground arith) (expression_step-Steps (memory e.ptr) next)
              (λ e' l.
                parse_earlier (e.ptr + 1) e'.ptr _ l
                  (expression_loop-Parses rounds end e' (ground arith)))))
        (λ done. omega arith)

  pub parse_expression-Parses : (ptr : ℕ) → Parses ptr (parse_expression memory fuel ptr)
  unfolding parse_expression
  parse_expression-Parses ptr =
      bind-Parses ptr (get_leb memory fuel ptr) _
        (get_leb-Reads memory code_align data_align fuel ends ptr)
        (λ len p l. parse_earlier ptr p _ (omega (arith, l)) (
          expression_loop-Parses (suc len) (p + len) (record { pc_off = 0; tos = 0; ptr = p })
            (omega arith)))
