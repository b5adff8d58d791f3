-- ===== src/ProtoBuffer/Messages.antt =====
-- Nested messages of src/protobuf.cpp: `startMessage` leaves room for a length of fixed width, and
-- `commitMessage` fills it in.
use async_profiler.Base.{
  ℕ, zero, suc, ◌+◌, ◌-◌, ◌*◌, ◌/◌, ◌%◌, ◌^◌, ◌≤◌, ◌<◌, ◌≡◌, refl, List, [], ◌∷◌, ◌++◌, Option,
  none, some, arith, ◌>>=◌, length, ap, ◌∙◌, sym, subst, bit_or, bit_and, length-append, set,
  set-append_left, set-append_at, ◌==◌, ==_iff, if◌then◌else◌, Bool-cases, false, inl, inr, lt→ltb,
}
use mathlib.Core.List.{append_assoc, append-nil}
use native.Mathlib.Nat.{add-zero, add-suc}
use async_profiler.Base.Bits.{bit_or-low, bit_or-top, bit_and-mask}
use async_profiler.ProtoBuffer.{
  ProtoBuffer, len, tag, start_message, commit_message, put_length, store, ensure_capacity,
}
use async_profiler.ProtoBuffer.View.{
  view, cells, length-cells, cells_beyond, Appends, Grown, ensure_capacity-Grown,
}
use async_profiler.ProtoBuffer.VarInt.{groups, decode, length-groups-le}
use async_profiler.ProtoBuffer.Fields.{tag-Appends}

cells-set :
    (f : ℕ → ℕ) (n i v : ℕ) → i < n → cells (λ j. if i == j then v else f j) n ≡ set (cells f n) i v
unfolding cells
cells-set f zero i v h = absurd (omega arith)
cells-set f (suc n) i v h = elim (Bool-cases (i == n)) [
  | inl top ↦
      let e : i ≡ n = (==_iff i n).0 top in
      rw (top, cells_beyond f n i v (omega arith))
        (sym (
          ap (λ k. set (cells f n ++ (f n ∷ [])) k v) (e ∙ sym (length-cells f n))
          ∙ set-append_at (cells f n) [] (f n) v))
  | inr other ↦
      let below : i < n = ground arith in
      rw (other, cells-set f n i v below)
        (sym (
          set-append_left (cells f n) (f n ∷ []) i v
            (subst (λ k. i < k) (sym (length-cells f n)) below)))
]

-- A length in `suc m` bytes, all but the last with the top bit set.
unfoldable pub padded : ℕ → ℕ → List ℕ
padded zero n = n % 256 ∷ []
padded (suc m) n = (n % 128 + 128) ∷ padded m (n / 128)

decode-padded :
    (m n : ℕ) (rest : List ℕ) → n < 128 ^ suc m → decode (padded m n ++ rest) ≡ some (n, rest)
unfolding padded decode
decode-padded zero n rest h = ground arith
decode-padded (suc m) n rest h = ground (arith, decode-padded m (n / 128) rest (omega arith))

-- The view is a front, one byte, and what follows: the byte is overwritten.
abbrev Overwrites : ProtoBuffer → List ℕ → Option ProtoBuffer → Type 0
Overwrites b xs none = ⊥
Overwrites b xs (some c) = (view c ≡ xs) × (c.offset ≡ b.offset) × (c.capacity ≡ b.capacity)

store-Overwrites :
    (b : ProtoBuffer) (front rest : List ℕ) (y v : ℕ)
    → b.offset ≤ b.capacity
    → view b ≡ front ++ (y ∷ rest)
    → Overwrites b (front ++ (v ∷ rest)) (store b (length front) v)
unfolding view
store-Overwrites b front rest y v room e =
    let size : b.offset ≡ length front + suc (length rest) =
      sym (length-cells b.contents b.offset) ∙ ap length e ∙ length-append front (y ∷ rest) in
    rw (lt→ltb (length front) b.capacity (omega arith)) (
      cells-set b.contents b.offset (length front) v (omega arith)
          ∙ ap (λ xs. set xs (length front) v) e
          ∙ set-append_at front rest y v,
      refl,
      refl,
    )

then-Overwrites :
    (b c : ProtoBuffer) (xs ys : List ℕ) (m : Option ProtoBuffer)
    → Overwrites b xs (some c)
    → Overwrites c ys m
    → Overwrites b ys m
then-Overwrites b c xs ys none w h = h
then-Overwrites b c xs ys (some d) (v, o, s) (w, p, t) = (w, p ∙ o, t ∙ s)

bind-Overwrites :
    (b : ProtoBuffer) (xs ys : List ℕ) (m : Option ProtoBuffer)
    (f : ProtoBuffer → Option ProtoBuffer)
    → Overwrites b xs m
    → ((c : ProtoBuffer) → Overwrites b xs (some c) → Overwrites c ys (f c))
    → Overwrites b ys (m >>= f)
bind-Overwrites b xs ys none f h k = absurd h
bind-Overwrites b xs ys (some c) f h k = then-Overwrites b c xs ys (f c) h (k c h)

put_length-Overwrites :
    (m : ℕ) (b : ProtoBuffer) (front hole body : List ℕ) (y n : ℕ)
    → b.offset ≤ b.capacity
    → view b ≡ front ++ (y ∷ (hole ++ body))
    → length hole ≡ m
    → Overwrites b (front ++ (padded m n ++ body)) (put_length m b (length front) n)
unfolding put_length padded
put_length-Overwrites zero b front [] body y n room e l =
    store-Overwrites b front body y (n % 256) room e
put_length-Overwrites zero b front (z ∷ hole) body y n room e l = absurd (omega arith)
put_length-Overwrites (suc m) b front [] body y n room e l = absurd (omega arith)
put_length-Overwrites (suc m) b front (z ∷ hole) body y n room e l =
    let v : ℕ = n % 128 + 128 in
    let next : List ℕ = front ++ (v ∷ []) in
    let at : length next ≡ length front + 1 = length-append front (v ∷ []) in
    rw (bit_or-top 7 n) (
      bind-Overwrites b _ _ (store b (length front) v) _
        (store-Overwrites b front (z ∷ (hole ++ body)) y v room e)
        (λ c w.
          subst (λ xs. Overwrites c xs (put_length m c (length front + 1) (n / 128)))
            (append_assoc front (v ∷ []) (padded m (n / 128) ++ body))
            (subst
              (λ k.
                Overwrites c (next ++ (padded m (n / 128) ++ body)) (put_length m c k (n / 128)))
              at
              (put_length-Overwrites m c next hole body z (n / 128) (omega (arith, w.1, w.2))
                (w.0 ∙ sym (append_assoc front (v ∷ []) (z ∷ (hole ++ body)))) (omega arith)))))

-- An open message: the view ends with room for its length, and the mark says where.
pub record Opened (front : List ℕ) (width : ℕ) (mark : ℕ) (c : ProtoBuffer) : Type 0 where
  pub hole : List ℕ
  pub reserved : view c ≡ front ++ hole
  pub wide : length hole ≡ width
  pub marked : mark ≡ length front * 8 + width
  pub within : c.offset ≤ c.capacity

abbrev pub Opens : List ℕ → ℕ → Option (ℕ × ProtoBuffer) → Type 0
Opens front width none = ⊥
Opens front width (some (mark, c)) = Opened front width mark c

cells-add :
    (f : ℕ → ℕ) (n k : ℕ) → (xs : List ℕ) × (cells f (n + k) ≡ cells f n ++ xs) × (length xs ≡ k)
unfolding cells
cells-add f n zero = ([], ap (cells f) (add-zero n) ∙ sym (append-nil (cells f n)), refl)
cells-add f n (suc k) =
    let (xs, e, l) = cells-add f n k in
    (
      xs ++ (f (n + k) ∷ []),
      ap (cells f) (add-suc n k)
          ∙ ap (λ ys. ys ++ (f (n + k) ∷ [])) e
          ∙ append_assoc (cells f n) xs (f (n + k) ∷ []),
      omega (arith, length-append xs (f (n + k) ∷ [])),
    )

room_skipped :
    (b d : ProtoBuffer) (front : List ℕ) (width : ℕ)
    → Grown b front d
    → d.offset + width ≤ d.capacity
    → d.offset < 2 ^ 61
    → width < 8
    → Opened
        (view b ++ front)
        width
        (bit_or (d.offset * 2 ^ 3 % 2 ^ 64) width)
        (record d { offset = d.offset + width })
unfolding view
room_skipped b d front width g room low w =
    let (hole, e, l) = cells-add d.contents d.offset width in
    let size : length (cells b.contents b.offset ++ front) ≡ d.offset =
      ap length (sym g.appended) ∙ length-cells d.contents d.offset in
    let wide : d.offset * 2 ^ 3 % 2 ^ 64 ≡ d.offset * 2 ^ 3 = omega arith in
    record {
      hole = hole;
      reserved = e ∙ ap (λ xs. xs ++ hole) g.appended;
      wide = l;
      marked =
          ap (λ (x : ℕ). bit_or x width) wide ∙ bit_or-low 3 d.offset width w ∙ omega (arith, size);
      within = room;
    }

-- After the tag: room for the length is made and skipped.
open_after_tag :
    (b c : ProtoBuffer) (front : List ℕ) (width : ℕ)
    → Grown b front c
    → c.offset < 2 ^ 61
    → width < 8
    → let d : ProtoBuffer = ensure_capacity c width in
      Opened
        (view b ++ front)
        width
        (bit_or (d.offset * 2 ^ 3 % 2 ^ 64) width)
        (record d { offset = d.offset + width })
open_after_tag b c front width g low w =
    let d = ensure_capacity c width in
    let (grown, room) = ensure_capacity-Grown c width g.within in
    room_skipped b d front width
      (record {
        appended = grown.appended ∙ append-nil (view c) ∙ g.appended;
        moved = omega (arith, grown.moved, g.moved);
        within = grown.within;
        room = omega (arith, grown.room, g.room);
      })
      (omega (arith, grown.moved)) (omega (arith, grown.moved)) w

start_after_tag :
    (b : ProtoBuffer) (front : List ℕ) (width : ℕ) (m : Option ProtoBuffer)
    → Appends b front m
    → b.offset + length front < 2 ^ 61
    → width < 8
    → Opens (view b ++ front) width (
        m >>= λ c.
        let d = ensure_capacity c width in
        some (bit_or (d.offset * 2 ^ 3 % 2 ^ 64) width, record d { offset = d.offset + width }))
start_after_tag b front width none g low w = absurd g
start_after_tag b front width (some c) g low w =
    open_after_tag b c front width g (omega (arith, g.moved)) w

-- `startMessage` succeeds, appends the tag of a length-delimited field, and leaves room for the
-- length; the mark that it returns tells where that room starts and how wide it is.
pub start_message-Opens :
    (b : ProtoBuffer) (index width : ℕ)
    → b.offset ≤ b.capacity
    → b.offset < 2 ^ 60
    → index < 2 ^ 29
    → width < 8
    → Opens (view b ++ groups 9 (index * 8 + len)) width (start_message b index width)
unfolding start_message
start_message-Opens b index width v low h w =
    start_after_tag b (groups 9 (index * 8 + len)) width (tag b index len)
      (tag-Appends b index len v h (omega arith))
      (omega (arith, length-groups-le 9 (index * 8 + len))) w

-- Once a body has been appended to an open message, `commitMessage` changes only the room for the
-- length, which then decodes to the number of bytes of the body.
abbrev pub Commits : List ℕ → List ℕ → Option ProtoBuffer → Type 0
Commits front body none = ⊥
Commits front body (some e) =
    (prefix : List ℕ) × (view e ≡ front ++ (prefix ++ body))
    × ((rest : List ℕ) → decode (prefix ++ rest) ≡ some (length body, rest))

length_in_place :
    (c : ProtoBuffer) (m : ℕ) (front body : List ℕ) (r : Option ProtoBuffer)
    → length body < 128 ^ suc m
    → Overwrites c (front ++ (padded m (length body) ++ body)) r
    → Commits front body r
length_in_place c m front body none h w = w
length_in_place c m front body (some e) h w =
    (padded m (length body), w.0, λ rest. decode-padded m (length body) rest h)

commit_open :
    (c : ProtoBuffer) (m : ℕ) (front hole body : List ℕ)
    → view c ≡ front ++ (hole ++ body)
    → length hole ≡ suc m
    → c.offset ≤ c.capacity
    → Overwrites c
        (front ++ (padded m (length body) ++ body))
        (put_length m c (length front) (length body))
commit_open c m front [] body e l v = absurd (omega arith)
commit_open c m front (y ∷ hole) body e l v =
    put_length-Overwrites m c front hole body y (length body) v e (omega arith)

-- For an open message of width 1 to 7 whose body fits that width: `commitMessage` succeeds, keeps
-- all that stood before the message and the body, and the bytes between them decode to the number
-- of bytes of the body.
pub commit_message-Commits :
    (c d : ProtoBuffer) (m mark : ℕ) (front body : List ℕ)
    → Opened front (suc m) mark c
    → Grown c body d
    → m < 7
    → d.offset < 2 ^ 61
    → length body < 128 ^ suc m
    → Commits front body (commit_message d mark)
unfolding commit_message view
commit_message-Commits c d m mark front body o g w low h =
    let whole : view d ≡ front ++ (o.hole ++ body) =
      g.appended ∙ ap (λ xs. xs ++ body) o.reserved ∙ append_assoc front o.hole body in
    let size : d.offset ≡ length front + (suc m + length body) =
      sym (length-cells d.contents d.offset)
      ∙ ap length whole
      ∙ length-append front (o.hole ++ body)
      ∙ omega (arith, length-append o.hole body, o.wide) in
    let masked : bit_and mark 7 ≡ suc m = bit_and-mask 3 mark ∙ omega (arith, o.marked) in
    let start : mark / 2 ^ 3 ≡ length front = omega (arith, o.marked) in
    let rest : (d.offset + 2 ^ 64 - (length front + suc m)) % 2 ^ 64 ≡ length body = omega arith in
    let some_bytes : (suc m == 0) ≡ false = ground arith in
    let one_less : suc m - 1 ≡ m = omega arith in
    rw (masked, start, rest, some_bytes, one_less)
      (length_in_place d m front body _ h (commit_open d m front o.hole body whole o.wide g.within))
