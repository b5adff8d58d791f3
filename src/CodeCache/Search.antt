-- ===== src/CodeCache/Search.antt =====
-- The searches of src/codeCache.cpp: `binarySearch` against the linear `findBlobByAddress`, and the
-- row that `findFrameDesc` picks.
use async_profiler.Base.{
  ℕ, zero, suc, ◌≤◌, ◌<◌, ◌≡◌, refl, true, false, List, [], ◌∷◌, Option, none, some, arith, ltb,
  leb, Bool-cases, inl, inr, length, get_or, ap, ◌∙◌, subst, ◌⊎◌,
}
use async_profiler.Base.Bisect.{
  below, inside, above, Found, hit, missed, IsOrdered, Locates, bisect_all-Locates,
}
use async_profiler.CodeCache.{
  CodeBlob, CodeCache, NativeFunc, FrameDesc, FrameFound, row, null_blob, blob_at, covers, find_in,
  find_blob_by_address, side_of, name_before, name_found, binary_search, frame_at, loc_side,
  frame_before, frame_found, target_loc, find_frame_desc,
}

-- The blobs as `sort` leaves those of a library whose symbols do not overlap.
pub record IsSorted (c : CodeCache) : Type 0 where
  pub proper : (i : ℕ) → i < length c.blobs → (blob_at c i).start ≤ (blob_at c i).end
  pub apart : (i j : ℕ) → i < j → j < length c.blobs → (blob_at c i).end ≤ (blob_at c j).start

module _ (address : ℕ) where
  side_of-cases :
      (b : CodeBlob)
      → (side_of address b ≡ below → b.end ≤ address)
        × (side_of address b ≡ inside → (b.start ≤ address) × (address < b.end))
        × (side_of address b ≡ above → (address < b.start) × (address < b.end))
        × (b.end ≤ address → side_of address b ≡ below)
        × (address < b.start → address < b.end → side_of address b ≡ above)
  side_of-cases b = ground arith

  sorted-IsOrdered :
      (c : CodeCache) → IsSorted c → IsOrdered (length c.blobs) (λ i. side_of address (blob_at c i))
  sorted-IsOrdered c s = record {
    before = λ i j le lt e.
        let (lo, _, _, _, _) = side_of-cases (blob_at c j) in
        let (_, _, _, is, _) = side_of-cases (blob_at c i) in
        is (ground (arith, lo e, s.apart i j, s.proper j lt));
    after = λ i j le lt e.
        let (_, _, hi, _, _) = side_of-cases (blob_at c i) in
        let (_, _, _, _, is) = side_of-cases (blob_at c j) in
        is (ground (arith, hi e, s.apart i j, s.proper j lt))
          (ground (arith, hi e, s.apart i j, s.proper j lt));
  }

  -- What a linear search says: an index that covers the address, or that none does.
  abbrev Finds : List CodeBlob → Option CodeBlob → Type 0
  Finds bs none = (i : ℕ) → i < length bs → covers address (get_or bs i null_blob) ≡ false
  Finds bs (some b) =
      (i : ℕ) × (i < length bs) × (get_or bs i null_blob ≡ b) × (covers address b ≡ true)

  found_behind :
      (b : CodeBlob) (bs : List CodeBlob) (r : Option CodeBlob)
      → covers address b ≡ false
      → Finds bs r
      → Finds (b ∷ bs) r
  found_behind b bs none h f = λ i. nowhere i
    where
      nowhere : (i : ℕ) → i < suc (length bs) → covers address (get_or (b ∷ bs) i null_blob) ≡ false
      nowhere zero p = h
      nowhere (suc i) p = f i (omega arith)
  found_behind b bs (some d) h (i, p, e, c) = (suc i, omega arith, e, c)

  find_in-Finds : (bs : List CodeBlob) → Finds bs (find_in address bs)
  unfolding find_in
  find_in-Finds [] = λ i p. absurd (omega arith)
  find_in-Finds (b ∷ bs) = elim (Bool-cases (covers address b)) [
    | inl holds ↦ rw holds (0, omega arith, refl, holds)
    | inr fails ↦ rw fails (found_behind b bs (find_in address bs) fails (find_in-Finds bs))
  ]

-- What `binarySearch` may answer: the name of the one blob that covers the address, or, when none
-- does, what the code falls back on at the place between the blobs before and after the address.
abbrev pub Answers : CodeCache → ℕ → Option CodeBlob → Option NativeFunc → Type 0
Answers c address (some b) r = r ≡ some b.func
Answers c address none r =
    (l : ℕ) × (l ≤ length c.blobs)
    × (r ≡ some (name_before c address l))
    × ((i : ℕ) → i < l → (blob_at c i).end ≤ address)
    × ((i : ℕ) → l ≤ i → i < length c.blobs → address < (blob_at c i).start)

module _ (c : CodeCache) (address : ℕ) (s : IsSorted c) where
  covers-bounds :
      (b : CodeBlob)
      → (covers address b ≡ true → (b.start ≤ address) × (address < b.end))
        × (covers address b ≡ false → b.start ≤ address → address < b.end → ⊥)
  covers-bounds b = ground arith

  -- Two blobs that cover the address are the same.
  covered_once :
      (i j : ℕ)
      → i < length c.blobs
      → j < length c.blobs
      → (blob_at c i).start ≤ address
      → address < (blob_at c i).end
      → (blob_at c j).start ≤ address
      → address < (blob_at c j).end
      → i ≡ j
  covered_once i j p q a b d e = ground (arith, s.apart i j, s.apart j i)

  found-Answers :
      (o : Option CodeBlob) (r : Option Found)
      → Finds address c.blobs o
      → Locates (length c.blobs) (λ i. side_of address (blob_at c i)) r
      → Answers c address o (name_found c address r)
  unfolding name_found
  found-Answers o none f l = absurd l
  found-Answers none (some (hit mid)) f (p, e) =
      let (_, is, _, _, _) = side_of-cases address (blob_at c mid) in
      absurd ((covers-bounds (blob_at c mid)).1 (f mid p) (is e).0 (is e).1)
  found-Answers (some b) (some (hit mid)) (i, q, g, v) (p, e) =
      let (_, is, _, _, _) = side_of-cases address (blob_at c mid) in
      let w = (covers-bounds (blob_at c i)).0 (ap (covers address) g ∙ v) in
      let same : mid ≡ i = covered_once mid i p q (is e).0 (is e).1 w.0 w.1 in
      ap (λ k. some ((blob_at c k).func)) same ∙ ap (λ (x : CodeBlob). some x.func) g
  found-Answers none (some (missed l)) f (le, lo, hi) = (
    l,
    le,
    refl,
    λ i p. (side_of-cases address (blob_at c i)).0 (lo i p),
    λ i p q. ((side_of-cases address (blob_at c i)).2 (hi i p q)).0,
  )
  found-Answers (some b) (some (missed l)) (i, q, g, v) (le, lo, hi) =
      let w = (covers-bounds (blob_at c i)).0 (ap (covers address) g ∙ v) in
      let cases = side_of-cases address (blob_at c i) in
      elim (Bool-cases (ltb i l)) [
        | inl less ↦ absurd (ground (arith, cases.0 (lo i (ground arith)), w))
        | inr more ↦ absurd (ground (arith, cases.2 (hi i (ground arith) q), w))
      ]

-- On sorted blobs that do not overlap, `binarySearch` always ends. If the linear search of
-- `findBlobByAddress` finds a blob, the answer is that blob's name; if it finds none, the answer is
-- the fallback at the one place where all blobs before end at or below the address and all blobs
-- from there on start above it.
pub binary_search-Answers :
    (c : CodeCache) (address : ℕ)
    → IsSorted c
    → Answers c address (find_blob_by_address c address) (binary_search c address)
unfolding binary_search find_blob_by_address
binary_search-Answers c address s =
    found-Answers c address s (find_in address c.blobs) _ (find_in-Finds address c.blobs) (
      bisect_all-Locates (length c.blobs) (λ i. side_of address (blob_at c i))
        (sorted-IsOrdered address c s))

-- The table of a library, in the order of the addresses.
abbrev pub IsAscending : CodeCache → Type 0
IsAscending c =
    (i j : ℕ) → i < j → j < length c.dwarf_table → (frame_at c i).loc ≤ (frame_at c j).loc

-- The row that is last at or before the target, or, before all rows, the built-in frames.
abbrev pub Describes : CodeCache → ℕ → Option FrameFound → Type 0
Describes c target r =
    ((i : ℕ) × (i < length c.dwarf_table)
      × (r ≡ some (row (frame_at c i)))
      × ((frame_at c i).loc ≤ target)
      × ((j : ℕ)
          → j < length c.dwarf_table
          → (frame_at c j).loc ≤ target
          → (frame_at c j).loc ≤ (frame_at c i).loc))
    ⊎ (((j : ℕ) → j < length c.dwarf_table → target < (frame_at c j).loc)
        × (r ≡ some (frame_before c target 0)))

module _ (c : CodeCache) (target : ℕ) (s : IsAscending c) where
  loc_side-cases :
      (f : FrameDesc)
      → (loc_side target f ≡ below → f.loc < target)
        × (loc_side target f ≡ inside → f.loc ≡ target)
        × (loc_side target f ≡ above → target < f.loc)
        × (f.loc < target → loc_side target f ≡ below)
        × (target < f.loc → loc_side target f ≡ above)
  loc_side-cases f = ground arith

  ascending : (i j : ℕ) → i ≤ j → j < length c.dwarf_table → (frame_at c i).loc ≤ (frame_at c j).loc
  ascending i j le p = elim (Bool-cases (ltb i j)) [
    | inl less ↦ s i j (ground arith) p
    | inr same ↦
        let e : i ≡ j = ground arith in
        subst (λ k. (frame_at c i).loc ≤ (frame_at c k).loc) e (omega arith)
  ]

  ascending-IsOrdered : IsOrdered (length c.dwarf_table) (λ i. loc_side target (frame_at c i))
  ascending-IsOrdered = record {
    before = λ i j le p e.
        let (lo, _, _, _, _) = loc_side-cases (frame_at c j) in
        let (_, _, _, is, _) = loc_side-cases (frame_at c i) in
        is (omega (arith, lo e, ascending i j le p));
    after = λ i j le p e.
        let (_, _, hi, _, _) = loc_side-cases (frame_at c i) in
        let (_, _, _, _, is) = loc_side-cases (frame_at c j) in
        is (omega (arith, hi e, ascending i j le p));
  }

  found-Describes :
      (r : Option Found)
      → Locates (length c.dwarf_table) (λ i. loc_side target (frame_at c i)) r
      → Describes c target (frame_found c target r)
  unfolding frame_found frame_before
  found-Describes none l = absurd l
  found-Describes (some (hit mid)) (p, e) =
      let at = (loc_side-cases (frame_at c mid)).1 e in
      inl (mid, p, refl, omega arith, λ j q h. omega arith)
  found-Describes (some (missed zero)) (le, lo, hi) =
      inr ((λ j p. (loc_side-cases (frame_at c j)).2 (hi j (omega arith) p)), refl)
  found-Describes (some (missed (suc l))) (le, lo, hi) = inl (
    l,
    omega arith,
    refl,
    omega (arith, (loc_side-cases (frame_at c l)).0 (lo l (omega arith))),
    λ j q h. elim (Bool-cases (leb j l)) [
      | inl at ↦ ascending j l (ground arith) (omega arith)
      | inr past ↦ absurd (omega (arith, (loc_side-cases (frame_at c j)).2 (hi j (ground arith) q)))
    ],
  )

-- On a table in the order of its addresses, `findFrameDesc` always ends, with a row whose address is
-- the greatest one that is not past the target; if all rows are past it, with a built-in frame.
pub find_frame_desc-Describes :
    (c : CodeCache) (pc : ℕ) → IsAscending c → Describes c (target_loc c pc) (find_frame_desc c pc)
unfolding find_frame_desc
find_frame_desc-Describes c pc s = found-Describes c (target_loc c pc) s _ (
    bisect_all-Locates (length c.dwarf_table) (λ i. loc_side (target_loc c pc) (frame_at c i))
      (ascending-IsOrdered c (target_loc c pc) s))
