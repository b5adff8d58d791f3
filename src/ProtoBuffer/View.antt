-- ===== src/ProtoBuffer/View.antt =====
-- The abstract view of the buffer of src/protobuf.cpp: the list of the bytes written so far.
use async_profiler.Base.{
  ℕ, zero, suc, ◌+◌, ◌≤◌, ◌<◌, ◌≡◌, refl, List, [], ◌∷◌, ◌++◌, Option, none, some, arith, ◌==◌,
  if◌then◌else◌, ◌>>=◌, length, length-append, ap, ◌∙◌, sym, lt→ltb,
}
use mathlib.Core.List.{append_assoc, append-nil}
use mathlib.Core.Path.{ap₂}
use native.Mathlib.Numerals.{add-one}
use async_profiler.ProtoBuffer.{ProtoBuffer, push, copy, ensure_capacity}

-- The first `n` cells.
unfoldable pub cells : (ℕ → ℕ) → ℕ → List ℕ
cells f zero = []
cells f (suc n) = cells f n ++ (f n ∷ [])

unfoldable pub view : ProtoBuffer → List ℕ
unfolding cells
view b = cells b.contents b.offset

pub length-cells : (f : ℕ → ℕ) (n : ℕ) → length (cells f n) ≡ n
unfolding cells
length-cells f zero = refl
length-cells f (suc n) = omega (arith, length-append (cells f n) (f n ∷ []), length-cells f n)

pub cells_beyond :
    (f : ℕ → ℕ) (n i v : ℕ) → n ≤ i → cells (λ j. if i == j then v else f j) n ≡ cells f n
unfolding cells
cells_beyond f zero i v h = refl
cells_beyond f (suc n) i v h = ground (arith, cells_beyond f n i v (omega arith))

-- The buffer after some bytes were appended to it.
pub record Grown (b : ProtoBuffer) (xs : List ℕ) (c : ProtoBuffer) : Type 0 where
  pub appended : view c ≡ view b ++ xs
  pub moved : c.offset ≡ b.offset + length xs
  pub within : c.offset ≤ c.capacity
  pub room : b.capacity ≤ c.capacity

-- The operation succeeds, and appends these bytes.
abbrev pub Appends : ProtoBuffer → List ℕ → Option ProtoBuffer → Type 0
Appends b xs none = ⊥
Appends b xs (some c) = Grown b xs c

cells_push :
    (f : ℕ → ℕ) (n v : ℕ) → cells (λ j. if n == j then v else f j) (n + 1) ≡ cells f n ++ (v ∷ [])
unfolding cells
cells_push f n v =
    let g : ℕ → ℕ = λ j. if n == j then v else f j in
    let top : g n ≡ v = ground arith in
    ap (cells g) (add-one n) ∙ ap₂ (λ xs y. xs ++ (y ∷ [])) (cells_beyond f n n v (omega arith)) top

pub push-Appends : (b : ProtoBuffer) (v : ℕ) → b.offset < b.capacity → Appends b (v ∷ []) (push b v)
unfolding push view
push-Appends b v h = rw (lt→ltb _ _ h) (record {
  appended = cells_push b.contents b.offset v;
  moved = omega arith;
  within = omega arith;
  room = omega arith;
})

pub append-Appends :
    (b : ProtoBuffer) (xs ys : List ℕ) (c : ProtoBuffer) (m : Option ProtoBuffer)
    → Grown b xs c
    → Appends c ys m
    → Appends b (xs ++ ys) m
append-Appends b xs ys c none g h = h
append-Appends b xs ys c (some d) g h = record {
  appended = h.appended ∙ ap (λ zs. zs ++ ys) g.appended ∙ append_assoc (view b) xs ys;
  moved = omega (arith, g.moved, h.moved, length-append xs ys);
  within = h.within;
  room = omega (arith, g.room, h.room);
}

pub bind-Appends :
    (b : ProtoBuffer) (xs ys : List ℕ) (m : Option ProtoBuffer)
    (f : ProtoBuffer → Option ProtoBuffer)
    → Appends b xs m
    → ((c : ProtoBuffer) → Grown b xs c → Appends c ys (f c))
    → Appends b (xs ++ ys) (m >>= f)
bind-Appends b xs ys none f h k = absurd h
bind-Appends b xs ys (some c) f h k = append-Appends b xs ys c (f c) h (k c h)

pub copy-Appends :
    (b : ProtoBuffer) (xs : List ℕ) → b.offset + length xs ≤ b.capacity → Appends b xs (copy b xs)
unfolding copy
copy-Appends b [] h = record {
  appended = sym (append-nil (view b));
  moved = omega arith;
  within = omega arith;
  room = omega arith;
}
copy-Appends b (x ∷ xs) h =
    bind-Appends b (x ∷ []) xs (push b x) (λ c. copy c xs) (push-Appends b x (omega arith))
      (λ c g. copy-Appends c xs (omega (arith, g.moved, g.room)))

-- `ensureCapacity` makes room, and keeps what is written.
pub ensure_capacity-Grown :
    (b : ProtoBuffer) (n : ℕ)
    → b.offset ≤ b.capacity
    → Grown b [] (ensure_capacity b n) × (b.offset + n ≤ (ensure_capacity b n).capacity)
unfolding ensure_capacity view
ensure_capacity-Grown b n h = (
  record {
    appended = ground (arith, append-nil (cells b.contents b.offset));
    moved = ground arith;
    within = ground arith;
    room = ground arith;
  },
  ground arith,
)
