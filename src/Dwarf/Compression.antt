-- ===== src/Dwarf/Compression.antt =====
-- The table that `addRecord` of src/dwarf.cpp builds, where equal neighbours share a row.
use async_profiler.Base.{
  ℕ, ◌≤◌, ◌<◌, ◌≡◌, refl, List, [], ◌∷◌, Option, none, some, if◌then◌else◌, leb, ◌==◌, arith,
  Bool-cases, inl, inr,
}
use async_profiler.CodeCache.{FrameDesc}
use async_profiler.Dwarf.Records.{
  Rule, Table, frame_of, add_record_raw, add_frame, add_record, has_same_rule,
}

abbrev pub IsPast : ℕ → List FrameDesc → Type 0
IsPast loc [] = Unit
IsPast loc (f ∷ fs) = f.loc < loc

-- The rows, latest first, stand at strictly decreasing places.
abbrev pub IsDescending : List FrameDesc → Type 0
IsDescending [] = Unit
IsDescending (f ∷ fs) = IsPast f.loc fs × IsDescending fs

-- The last row is not after the place.
abbrev pub IsReached : ℕ → List FrameDesc → Type 0
IsReached loc [] = Unit
IsReached loc (f ∷ fs) = f.loc ≤ loc

-- What the table says about a place: the latest row that starts at or before it.
abbrev pub rule_at : ℕ → List FrameDesc → Option (ℕ × ℕ × ℕ)
rule_at x [] = none
rule_at x (f ∷ fs) = if leb f.loc x then some (f.cfa, f.fp_off, f.pc_off) else rule_at x fs

pub record Describes (old : List FrameDesc) (f : FrameDesc) (new : List FrameDesc) : Type 0 where
  pub descending : IsDescending new
  pub reached : IsReached f.loc new
  pub from_here : (x : ℕ) → f.loc ≤ x → rule_at x new ≡ some (f.cfa, f.fp_off, f.pc_off)
  pub before : (x : ℕ) → x < f.loc → rule_at x new ≡ rule_at x old

earlier_row :
    (loc : ℕ) (g : FrameDesc) (fs : List FrameDesc) → IsPast g.loc fs → g.loc ≡ loc → IsPast loc fs
earlier_row loc g [] p e = tt
earlier_row loc g (f ∷ fs) p e = omega (arith, p, e)

add_frame-Describes :
    (t : Table) (rows : List FrameDesc) (f : FrameDesc)
    → t.rows ≡ rows
    → IsDescending rows
    → IsReached f.loc rows
    → Describes rows f (add_frame t rows f).rows
unfolding add_frame add_record_raw
add_frame-Describes t [] f e d r = rw e (record {
  descending = (tt, tt);
  reached = omega arith;
  from_here = λ x h. ground arith;
  before = λ x h. ground arith;
})
add_frame-Describes t (prev ∷ rows) f e (p, d) r = elim (Bool-cases (prev.loc == f.loc)) [
  | inl here ↦ rw here (record {
    descending = (earlier_row f.loc prev rows p (ground arith), d);
    reached = omega arith;
    from_here = λ x h. ground arith;
    before = λ x h. ground arith;
  })
  | inr apart ↦ elim (Bool-cases (has_same_rule prev f)) [
    | inl same ↦
        rw (apart, same, e)
          (record {
            descending = (p, d);
            reached = r;
            from_here = λ x h. ground arith;
            before = λ x h. refl;
          })
    | inr other ↦
        rw (apart, other, e)
          (record {
            descending = (ground arith, (p, d));
            reached = omega arith;
            from_here = λ x h. ground arith;
            before = λ x h. ground arith;
          })
  ]
]

-- A record at or after the last row keeps the rows at strictly increasing places. From its place on
-- the table then says the rule of the record, and before it what it said before, whether a row was
-- added, replaced, or left out because the last one says the same.
pub add_record-Describes :
    (t : Table) (loc : ℕ) (rule : Rule)
    → IsDescending t.rows
    → IsReached loc t.rows
    → Describes t.rows (frame_of loc rule) (add_record t loc rule).rows
unfolding add_record
add_record-Describes t loc rule d r =
    add_frame-Describes t t.rows (frame_of loc rule) refl d (unfold frame_of in r)
