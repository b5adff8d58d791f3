-- ===== src/ProtoBuffer/VarInt.antt =====
-- `varIntSize` and `putVarInt` of src/protobuf.cpp: the bytes of a variable-length integer.
use async_profiler.Base.{
  ℕ, zero, suc, ◌+◌, ◌*◌, ◌/◌, ◌%◌, ◌^◌, ◌≤◌, ◌<◌, ◌≡◌, refl, List, [], ◌∷◌, ◌++◌, Option, none,
  some, arith, ltb, ◌==◌, if◌then◌else◌, ◌>>=◌, length, ap, sym, bit_or, Bool-cases, inl, inr, true,
  false,
}
use async_profiler.Base.Bits.{bit_or-top, bit_or_step, bit_or-zero, two-pow-suc}
use async_profiler.ProtoBuffer.{
  ProtoBuffer, bit_length, clz64, var_int_size, ensure_capacity, push, put_groups, put_var_int,
}
use async_profiler.ProtoBuffer.View.{
  view, Appends, push-Appends, bind-Appends, append-Appends, ensure_capacity-Grown,
}

-- The groups of seven digits, lowest first; all but the last have the top bit set.
unfoldable pub groups : ℕ → ℕ → List ℕ
groups zero n = n ∷ []
groups (suc f) n =
    let rest = groups f (n / 128) in if n / 128 == 0 then n ∷ [] else (n % 128 + 128) ∷ rest

-- What a reader of the format makes of the bytes: the number, and the bytes after it.
unfoldable pub decode : List ℕ → Option (ℕ × List ℕ)
decode [] = none
decode (x ∷ xs) =
    let more = decode xs >>= (λ (v, rest). some (x % 128 + 128 * v, rest)) in
    if ltb x 128 then some (x, xs) else more

pub decode-groups :
    (f n : ℕ) (rest : List ℕ) → n < 128 ^ suc f → decode (groups f n ++ rest) ≡ some (n, rest)
unfolding groups decode
decode-groups zero n rest h = ground arith
decode-groups (suc f) n rest h = ground (arith, decode-groups f (n / 128) rest (omega arith))

continuation : (n : ℕ) → bit_or 0x80 n % 256 ≡ n % 128 + 128
continuation n = bit_or-top 7 n

pub length-groups-le : (f n : ℕ) → length (groups f n) ≤ suc f
unfolding groups
length-groups-le zero n = omega arith
length-groups-le (suc f) n = ground (arith, length-groups-le f (n / 128))

groups_stop : (f n : ℕ) → (n / 128 == 0) ≡ true → groups f n ≡ n ∷ []
unfolding groups
groups_stop zero n h = refl
groups_stop (suc f) n h = rw h

groups_go :
    (f n : ℕ) → (n / 128 == 0) ≡ false → groups (suc f) n ≡ (n % 128 + 128) ∷ groups f (n / 128)
unfolding groups
groups_go f n h = rw h

put_last :
    (f n : ℕ) (b : ProtoBuffer)
    → (n / 128 == 0) ≡ true
    → b.offset + length (groups f n) ≤ b.capacity
    → Appends b (groups f n) (put_groups (suc f) b n)
unfolding put_groups
put_last f n b last room =
    let low : n % 256 ≡ n = ground arith in
    let e = groups_stop f n last in
    rw (last, low, e) (push-Appends b n (omega (arith, ap length e)))

put_groups-Appends :
    (f n : ℕ) (b : ProtoBuffer)
    → n < 128 ^ suc f
    → b.offset + length (groups f n) ≤ b.capacity
    → Appends b (groups f n) (put_groups (suc f) b n)
unfolding put_groups
put_groups-Appends zero n b h room = put_last zero n b (ground arith) room
put_groups-Appends (suc f) n b h room = elim (Bool-cases (n / 128 == 0)) [
  | inl last ↦ put_last (suc f) n b last room
  | inr more ↦
      let e = groups_go f n more in
      rw (more, continuation n, e)
        (bind-Appends b ((n % 128 + 128) ∷ []) (groups f (n / 128)) (push b (n % 128 + 128))
          (λ c. put_groups (suc f) c (n / 128))
          (push-Appends b (n % 128 + 128) (omega (arith, ap length e)))
          (λ c g.
            put_groups-Appends f (n / 128) c (omega arith)
              (omega (arith, ap length e, g.moved, g.room))))
]

-- More rounds than digits change nothing.
bit_length_more : (r x : ℕ) → x < 2 ^ r → bit_length (suc r) x ≡ bit_length r x
unfolding bit_length
bit_length_more zero x h = ground arith
bit_length_more (suc r) x h =
    ground (arith, bit_length_more r (x / 2) (omega (arith, two-pow-suc r)))

bit_length_step : (r x : ℕ) → 1 ≤ x → bit_length (suc r) x ≡ suc (bit_length r (x / 2))
unfolding bit_length
bit_length_step r x h = ground arith

bit_length-le : (k r x : ℕ) → x < 2 ^ k → bit_length r x ≤ k
unfolding bit_length
bit_length-le zero zero x h = omega arith
bit_length-le zero (suc r) x h = ground arith
bit_length-le (suc k) zero x h = omega arith
bit_length-le (suc k) (suc r) x h =
    ground (arith, bit_length-le k r (x / 2) (omega (arith, two-pow-suc k)))

abbrev seven_more : ℕ → ℕ
seven_more r = suc (suc (suc (suc (suc (suc (suc r))))))

bit_length_seven :
    (r x : ℕ) → 128 ≤ x → bit_length (seven_more r) x ≡ seven_more (bit_length r (x / 128))
bit_length_seven r x h =
    let x₁ : ℕ = x / 2 in
    let x₂ : ℕ = x₁ / 2 in
    let x₃ : ℕ = x₂ / 2 in
    let x₄ : ℕ = x₃ / 2 in
    let x₅ : ℕ = x₄ / 2 in
    let x₆ : ℕ = x₅ / 2 in
    let last : x₆ / 2 ≡ x / 128 = omega arith in
    omega (
      arith,
      bit_length_step (suc (suc (suc (suc (suc (suc r)))))) x (omega arith),
      bit_length_step (suc (suc (suc (suc (suc r))))) x₁ (omega arith),
      bit_length_step (suc (suc (suc (suc r)))) x₂ (omega arith),
      bit_length_step (suc (suc (suc r))) x₃ (omega arith),
      bit_length_step (suc (suc r)) x₄ (omega arith),
      bit_length_step (suc r) x₅ (omega arith),
      bit_length_step r x₆ (omega arith),
      ap (bit_length r) last,
    )

-- Seven digits to a group.
abbrev rounds_for : ℕ → ℕ
rounds_for zero = seven_more 0
rounds_for (suc f) = seven_more (rounds_for f)

groups_size :
    (f x : ℕ)
    → 1 ≤ x
    → x < 128 ^ suc f
    → (bit_length (rounds_for f) x + 6) / 7 ≡ length (groups f x)
groups_size zero x h l =
    let e = groups_stop 0 x (ground arith) in
    omega (arith, ap length e, bit_length-le 7 7 x (omega arith), bit_length_step 6 x h)
groups_size (suc f) x h l = elim (Bool-cases (x / 128 == 0)) [
  | inl last ↦ omega (
    arith,
    ap length (groups_stop (suc f) x last),
    bit_length-le 7 (rounds_for (suc f)) x (ground arith),
    bit_length_step (suc (suc (suc (suc (suc (suc (rounds_for f))))))) x h,
  )
  | inr more ↦
      let big : 128 ≤ x = ground arith in
      omega (
        arith,
        ap length (groups_go f x more),
        bit_length_seven (rounds_for f) x big,
        groups_size f (x / 128) (omega arith) (omega arith),
      )
]

rounds_70 : (x : ℕ) → x < 2 ^ 64 → bit_length 70 x ≡ bit_length 64 x
rounds_70 x h = omega (
  arith,
  bit_length_more 64 x h,
  bit_length_more 65 x (omega arith),
  bit_length_more 66 x (omega arith),
  bit_length_more 67 x (omega arith),
  bit_length_more 68 x (omega arith),
  bit_length_more 69 x (omega arith),
)

set_lowest : (n : ℕ) → bit_or n 1 ≡ n / 2 * 2 + 1
set_lowest n = omega (arith, bit_or_step n 1, bit_or-zero (n / 2))

length-groups_congr : (f n m : ℕ) → n / 128 ≡ m / 128 → length (groups f n) ≡ length (groups f m)
unfolding groups
length-groups_congr zero n m e = refl
length-groups_congr (suc f) n m e = rw e (ground arith)

-- For every 64-bit number `varIntSize` is the number of bytes that `putVarInt` writes.
pub var_int_size_lem : (n : ℕ) → n < 2 ^ 64 → var_int_size n ≡ length (groups 9 n)
unfolding var_int_size clz64
var_int_size_lem n h =
    let x : ℕ = bit_or n 1 in
    let e = set_lowest n in
    let sized : (bit_length 70 x + 6) / 7 ≡ length (groups 9 x) =
      groups_size 9 x (omega arith) (omega arith) in
    omega (
      arith,
      sized,
      rounds_70 x (omega arith),
      bit_length-le 64 64 x (omega arith),
      bit_length_step 63 x (omega arith),
      length-groups_congr 9 n x (omega arith),
    )

-- Appending bytes from which a reader gets the number back, whatever follows them.
abbrev pub AppendsVarInt : ProtoBuffer → ℕ → Option ProtoBuffer → Type 0
AppendsVarInt b n none = ⊥
AppendsVarInt b n (some c) =
    (bytes : List ℕ) × (view c ≡ view b ++ bytes)
    × (length bytes ≡ var_int_size n)
    × ((rest : List ℕ) → decode (bytes ++ rest) ≡ some (n, rest))
    × (c.offset ≤ c.capacity)

-- `putVarInt` of a 64-bit number into a buffer within its capacity succeeds, appends the groups of
-- the number and nothing else, and stays within the capacity that it makes sure of.
pub put_var_int-Appends :
    (b : ProtoBuffer) (n : ℕ)
    → b.offset ≤ b.capacity
    → n < 2 ^ 64
    → Appends b (groups 9 n) (put_var_int b n)
unfolding put_var_int
put_var_int-Appends b n v h =
    let size = var_int_size n in
    let (grown, room) = ensure_capacity-Grown b size v in
    let c = ensure_capacity b size in
    append-Appends b [] (groups 9 n) c (put_groups 10 c n) grown
      (put_groups-Appends 9 n c (omega arith) (omega (arith, grown.moved, var_int_size_lem n h)))

decodable_groups :
    (b : ProtoBuffer) (n : ℕ) (m : Option ProtoBuffer)
    → n < 2 ^ 64
    → Appends b (groups 9 n) m
    → AppendsVarInt b n m
decodable_groups b n none h g = g
decodable_groups b n (some c) h g = (
  groups 9 n,
  g.appended,
  sym (var_int_size_lem n h),
  λ rest. decode-groups 9 n rest (omega arith),
  g.within,
)

-- `putVarInt` of a 64-bit number into a buffer within its capacity succeeds without a store out of
-- bounds. It keeps what was written and appends `varIntSize` bytes, from which a reader of the
-- format gets the number back, whatever bytes follow.
pub put_var_int-decodes :
    (b : ProtoBuffer) (n : ℕ)
    → b.offset ≤ b.capacity
    → n < 2 ^ 64
    → AppendsVarInt b n (put_var_int b n)
put_var_int-decodes b n v h = decodable_groups b n (put_var_int b n) h (put_var_int-Appends b n v h)
