-- ===== src/Dwarf/Ending.antt =====
-- Where the readers of src/dwarf.h stop that read bytes as long as their top bit is set, and what an
-- instruction of src/dwarf.cpp that begins with one of them comes to.
pub mod Expressions
pub mod Instructions
use async_profiler.Base.{
  ℕ, zero, suc, ◌+◌, ◌-◌, ◌*◌, ◌/◌, ◌%◌, ◌^◌, ◌≤◌, ◌<◌, ◌≡◌, ◌≢◌, refl, sym, subst, ap, arith, Bool,
  true, false, Option, none, some, Bool-cases, inl, inr, if_both, if_cases, ltb, ◌==◌, ◌>>=◌,
  if◌then◌else◌, bit_and,
}
use async_profiler.Dwarf.{
  word_mod, dw_reg_fp, dw_reg_pc, get8, get16, get32, get_leb_from, get_leb, get_sleb_from,
  get_sleb, skip_leb,
}
use async_profiler.Dwarf.Records.{Rule, Table}
use async_profiler.Dwarf.Instructions.{
  Machine, Outcome, goes_on, gives_up, at, with_rule, advance, saved_at, saved_at_sf, skip_two,
  pc_expression, skip_block, val_expression, extended_step, instruction_step, instruction_loop,
  parse_instructions,
}

abbrev place : Option (ℕ × ℕ) → Option ℕ
place none = none
place (some (v, p)) = some p

-- A read that ends, behind the place where it starts.
abbrev pub Later : ℕ → Option ℕ → Type 0
Later ptr none = ⊥
Later ptr (some p) = ptr < p

abbrev pub Reads : ℕ → Option (ℕ × ℕ) → Type 0
Reads ptr none = ⊥
Reads ptr (some (v, p)) = ptr < p

Reads-Later :
    (ptr : ℕ) (o : Option (ℕ × ℕ)) (q : Option ℕ) → place o ≡ q → Later ptr q → Reads ptr o
Reads-Later ptr none q e h = subst (Later ptr) (sym e) h
Reads-Later ptr (some (v, p)) q e h = subst (Later ptr) (sym e) h

-- One instruction: the loop goes on at a place that is not before `ptr`, or it is given up.
abbrev pub Goes : ℕ → Option Outcome → Type 0
Goes ptr none = ⊥
Goes ptr (some (goes_on m)) = ptr ≤ m.ptr
Goes ptr (some (gives_up m)) = Unit

bind-Goes :
    (ptr q : ℕ) (o : Option (ℕ × ℕ)) (k : ℕ × ℕ → Option Outcome)
    → Reads q o
    → ((v p : ℕ) → q < p → Goes ptr (k (v, p)))
    → Goes ptr (o >>= k)
bind-Goes ptr q none k h step = h
bind-Goes ptr q (some (v, p)) k h step = step v p h

bind_place-Goes :
    (ptr q : ℕ) (o : Option ℕ) (k : ℕ → Option Outcome)
    → Later q o
    → ((p : ℕ) → q < p → Goes ptr (k p))
    → Goes ptr (o >>= k)
bind_place-Goes ptr q none k h step = h
bind_place-Goes ptr q (some p) k h step = step p h

-- A round of a loop, or its end.
pub loop_cases {ℓ κ} :
    {A : Type ℓ} (P : A → Type κ) (b : Bool) (x y : A)
    → (b ≡ true → P x)
    → (b ≡ false → P y)
    → P (elim b [ false ↦ y | true ↦ x ])
loop_cases P true x y f g = f refl
loop_cases P false x y f g = g refl

from_earlier : (ptr q : ℕ) (o : Option ℕ) → ptr ≤ q → Later q o → Later ptr o
from_earlier ptr q none l h = h
from_earlier ptr q (some p) l h = omega (arith, h)

module _ (memory : ℕ → ℕ) where
  skip_leb-Later :
      (fuel ptr : ℕ) → skip_leb memory fuel ptr ≢ none → Later ptr (skip_leb memory fuel ptr)
  unfolding skip_leb
  skip_leb-Later zero ptr h = h refl
  skip_leb-Later (suc fuel) ptr h = elim (Bool-cases (bit_and (memory ptr) 0x80 == 0)) [
    | inl last ↦ rw last (omega arith)
    | inr more ↦
        let h' : skip_leb memory fuel (ptr + 1) ≢ none = λ e. h (rw more e) in
        rw more (
          from_earlier ptr (ptr + 1) (skip_leb memory fuel (ptr + 1)) (omega arith)
            (skip_leb-Later fuel (ptr + 1) h'))
  ]

  -- The two readers stop where the bytes are skipped to.
  place-get_leb_from :
      (fuel shift r ptr : ℕ)
      → place (get_leb_from memory fuel shift r ptr) ≡ skip_leb memory fuel ptr
  unfolding get_leb_from skip_leb
  place-get_leb_from zero shift r ptr = refl
  place-get_leb_from (suc fuel) shift r ptr = elim (Bool-cases (bit_and (memory ptr) 0x80 == 0)) [
    | inl last ↦ rw last refl
    | inr more ↦ rw more (place-get_leb_from fuel (shift + 7) _ (ptr + 1))
  ]

  place-get_sleb_from :
      (fuel shift r ptr : ℕ)
      → place (get_sleb_from memory fuel shift r ptr) ≡ skip_leb memory fuel ptr
  unfolding get_sleb_from skip_leb
  place-get_sleb_from zero shift r ptr = refl
  place-get_sleb_from (suc fuel) shift r ptr = elim (Bool-cases (bit_and (memory ptr) 0x80 == 0)) [
    | inl last ↦ rw last refl
    | inr more ↦ rw more (place-get_sleb_from fuel (shift + 7) _ (ptr + 1))
  ]

module _ (memory : ℕ → ℕ) (code_align data_align fuel : ℕ)
    (ends : (p : ℕ) → skip_leb memory fuel p ≢ none) where
  pub skips : (ptr : ℕ) → Later ptr (skip_leb memory fuel ptr)
  skips ptr = skip_leb-Later memory fuel ptr (ends ptr)

  pub get_leb-Reads : (ptr : ℕ) → Reads ptr (get_leb memory fuel ptr)
  unfolding get_leb
  get_leb-Reads ptr =
      Reads-Later ptr (get_leb memory fuel ptr) (skip_leb memory fuel ptr)
        (place-get_leb_from memory fuel 0 0 ptr) (skips ptr)

  pub get_sleb-Reads : (ptr : ℕ) → Reads ptr (get_sleb memory fuel ptr)
  unfolding get_sleb
  get_sleb-Reads ptr =
      Reads-Later ptr (get_sleb memory fuel ptr) (skip_leb memory fuel ptr)
        (place-get_sleb_from memory fuel 0 0 ptr) (skips ptr)

  pub skip_then :
      (ptr q : ℕ) (k : ℕ → Option Outcome)
      → ((p : ℕ) → q < p → Goes ptr (k p))
      → Goes ptr (skip_leb memory fuel q >>= k)
  skip_then ptr q k step = bind_place-Goes ptr q (skip_leb memory fuel q) k (skips q) step

  pub leb_then :
      (ptr q : ℕ) (k : ℕ × ℕ → Option Outcome)
      → ((v p : ℕ) → q < p → Goes ptr (k (v, p)))
      → Goes ptr (get_leb memory fuel q >>= k)
  leb_then ptr q k step = bind-Goes ptr q (get_leb memory fuel q) k (get_leb-Reads q) step

  pub sleb_then :
      (ptr q : ℕ) (k : ℕ × ℕ → Option Outcome)
      → ((v p : ℕ) → q < p → Goes ptr (k (v, p)))
      → Goes ptr (get_sleb memory fuel q >>= k)
  sleb_then ptr q k step = bind-Goes ptr q (get_sleb memory fuel q) k (get_sleb-Reads q) step
