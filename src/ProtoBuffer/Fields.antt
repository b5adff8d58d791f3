-- ===== src/ProtoBuffer/Fields.antt =====
-- The fields of src/protobuf.cpp: what each `field` method appends.
use async_profiler.Base.{
  ℕ, zero, suc, ◌+◌, ◌*◌, ◌/◌, ◌%◌, ◌^◌, ◌≤◌, ◌<◌, ◌≡◌, refl, List, [], ◌++◌, arith, length, ap,
  ◌∙◌, subst, bit_or,
}
use async_profiler.Base.Bits.{bit_or-low}
use async_profiler.ProtoBuffer.{
  ProtoBuffer, varint, i64, len, tag_of, tag, field_int, field_fixed64, field_bytes, little_endian,
  copy, put_var_int, ensure_capacity,
}
use async_profiler.ProtoBuffer.View.{
  Appends, bind-Appends, append-Appends, copy-Appends, ensure_capacity-Grown,
}
use async_profiler.ProtoBuffer.VarInt.{groups, put_var_int-Appends}

-- A field number and a wire type share the tag without overlap.
pub tag_of_lem : (index type : ℕ) → index < 2 ^ 29 → type < 8 → tag_of index type ≡ index * 8 + type
unfolding tag_of
tag_of_lem index type h t =
    let e : index * 2 ^ 3 % 2 ^ 32 ≡ index * 2 ^ 3 = omega arith in
    ap (λ (x : ℕ). bit_or x type) e ∙ bit_or-low 3 index type t

pub tag-Appends :
    (b : ProtoBuffer) (index type : ℕ)
    → b.offset ≤ b.capacity
    → index < 2 ^ 29
    → type < 8
    → Appends b (groups 9 (index * 8 + type)) (tag b index type)
unfolding tag
tag-Appends b index type v h t =
    rw (tag_of_lem index type h t) (put_var_int-Appends b (index * 8 + type) v (omega arith))

-- An integer field appends its tag and its value.
pub field_int-Appends :
    (b : ProtoBuffer) (index n : ℕ)
    → b.offset ≤ b.capacity
    → index < 2 ^ 29
    → n < 2 ^ 64
    → Appends b (groups 9 (index * 8 + varint) ++ groups 9 n) (field_int b index n)
unfolding field_int
field_int-Appends b index n v h w =
    bind-Appends b _ _ (tag b index varint) (λ c. put_var_int c n)
      (tag-Appends b index varint v h (omega arith)) (λ c g. put_var_int-Appends c n g.within w)

copied-Appends :
    (b : ProtoBuffer) (s : List ℕ)
    → b.offset ≤ b.capacity
    → Appends b s (copy (ensure_capacity b (length s)) s)
copied-Appends b s v =
    let (grown, room) = ensure_capacity-Grown b (length s) v in
    append-Appends b [] s _ _ grown
      (copy-Appends (ensure_capacity b (length s)) s (omega (arith, grown.moved)))

length-little_endian : (k n : ℕ) → length (little_endian k n) ≡ k
unfolding little_endian
length-little_endian zero n = refl
length-little_endian (suc k) n = ap suc (length-little_endian k (n / 256))

-- A fixed field appends its tag and the eight bytes of its value.
pub field_fixed64-Appends :
    (b : ProtoBuffer) (index n : ℕ)
    → b.offset ≤ b.capacity
    → index < 2 ^ 29
    → Appends b (groups 9 (index * 8 + i64) ++ little_endian 8 n) (field_fixed64 b index n)
unfolding field_fixed64
field_fixed64-Appends b index n v h =
    bind-Appends b _ _ (tag b index i64) (λ c. copy (ensure_capacity c 8) (little_endian 8 n))
      (tag-Appends b index i64 v h (omega arith))
      (λ c g.
        subst (λ k. Appends c (little_endian 8 n) (copy (ensure_capacity c k) (little_endian 8 n)))
          (length-little_endian 8 n) (copied-Appends c (little_endian 8 n) g.within))

-- A bytes field appends its tag, its length and its bytes.
pub field_bytes-Appends :
    (b : ProtoBuffer) (index : ℕ) (s : List ℕ)
    → b.offset ≤ b.capacity
    → index < 2 ^ 29
    → length s < 2 ^ 64
    → Appends b (groups 9 (index * 8 + len) ++ (groups 9 (length s) ++ s)) (field_bytes b index s)
unfolding field_bytes
field_bytes-Appends b index s v h w =
    bind-Appends b _ _ (tag b index len) _ (tag-Appends b index len v h (omega arith)) (λ c g.
      bind-Appends c _ _ (put_var_int c (length s)) (λ d. copy (ensure_capacity d (length s)) s)
        (put_var_int-Appends c (length s) g.within w) (λ d k. copied-Appends d s k.within))
