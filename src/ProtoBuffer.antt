-- ===== src/ProtoBuffer.antt =====
-- src/protobuf.cpp and src/protobuf.h: the growing buffer of protobuf records.
-- `contents` is the memory behind `_data`: what it holds past what was written is unspecified, and
-- stays so through a reallocation. A store past the capacity is a fault, `none`. `malloc` and
-- `realloc` are taken to succeed, as the code takes them to.
pub mod View
pub mod VarInt
pub mod Fields
pub mod Messages
mod Tests
use async_profiler.Base.{
  ℕ, zero, suc, ◌+◌, ◌-◌, ◌*◌, ◌/◌, ◌%◌, ◌^◌, max, List, [], ◌∷◌, Option, none, some, ltb, leb,
  ◌==◌, if◌then◌else◌, ◌>>=◌, bit_or, bit_and, length,
}

abbrev pub varint : ℕ
varint = 0

abbrev pub i64 : ℕ
i64 = 1

abbrev pub len : ℕ
len = 2

abbrev pub minimum_initial_size : ℕ
minimum_initial_size = 16

abbrev pub nested_field_byte_count : ℕ
nested_field_byte_count = 5

pub record ProtoBuffer : Type 0 where
  pub contents : ℕ → ℕ
  pub capacity : ℕ
  pub offset : ℕ

pub new : (ℕ → ℕ) → ℕ → ProtoBuffer
new memory initial_capacity = record {
  contents = memory;
  capacity = max minimum_initial_size initial_capacity;
  offset = 0;
}

-- The number of binary digits: 64 - __builtin_clzll(x) for a 64-bit x other than 0. The count of
-- rounds is that of the digits looked at.
unfoldable pub bit_length : ℕ → ℕ → ℕ
bit_length zero x = 0
bit_length (suc rounds) x = let rest = bit_length rounds (x / 2) in if x == 0 then 0 else suc rest

unfoldable pub clz64 : ℕ → ℕ
clz64 x = 64 - bit_length 64 x

unfoldable pub var_int_size : ℕ → ℕ
var_int_size value = (640 - clz64 (bit_or value 1) * 9) / 64

pub ensure_capacity : ProtoBuffer → ℕ → ProtoBuffer
ensure_capacity b new_data_size =
    let expected_capacity = b.offset + new_data_size in
    if leb expected_capacity b.capacity
    then b
    else record b { capacity = max expected_capacity (b.capacity * 2) }

-- `_data[i] = v`
abbrev pub store : ProtoBuffer → ℕ → ℕ → Option ProtoBuffer
store b i v =
    if ltb i b.capacity
    then some (record b { contents = λ j. if i == j then v else b.contents j })
    else none

-- `_data[_offset++] = v`
pub push : ProtoBuffer → ℕ → Option ProtoBuffer
push b v = store b b.offset v >>= λ c. some (record c { offset = b.offset + 1 })

-- The loop of `putVarInt`, and its last store; a 64-bit number takes at most nine rounds.
pub put_groups : ℕ → ProtoBuffer → ℕ → Option ProtoBuffer
unfolding push
put_groups zero b n = none
put_groups (suc fuel) b n =
    let rest = push b (bit_or 0x80 n % 256) >>= (λ c. put_groups fuel c (n / 2 ^ 7)) in
    if n / 2 ^ 7 == 0 then push b (n % 256) else rest

pub put_var_int : ProtoBuffer → ℕ → Option ProtoBuffer
put_var_int b n = put_groups 10 (ensure_capacity b (var_int_size n)) n

-- `index << 3 | type`, in 32 bits.
unfoldable pub tag_of : ℕ → ℕ → ℕ
tag_of index type = bit_or (index * 2 ^ 3 % 2 ^ 32) type

pub tag : ProtoBuffer → ℕ → ℕ → Option ProtoBuffer
tag b index type = put_var_int b (tag_of index type)

pub field_int : ProtoBuffer → ℕ → ℕ → Option ProtoBuffer
field_int b index n = do c ← tag b index varint; put_var_int c n

-- The bytes of a number, lowest first.
unfoldable pub little_endian : ℕ → ℕ → List ℕ
little_endian zero n = []
little_endian (suc k) n = n % 256 ∷ little_endian k (n / 256)

-- `memcpy(_data + _offset, s, len); _offset += len`
pub copy : ProtoBuffer → List ℕ → Option ProtoBuffer
copy b [] = some b
copy b (x ∷ xs) = do c ← push b x; copy c xs

pub field_fixed64 : ProtoBuffer → ℕ → ℕ → Option ProtoBuffer
field_fixed64 b index n = do c ← tag b index i64; copy (ensure_capacity c 8) (little_endian 8 n)

pub field_bytes : ProtoBuffer → ℕ → List ℕ → Option ProtoBuffer
field_bytes b index s = do
  c ← tag b index len
  d ← put_var_int c (length s)
  copy (ensure_capacity d (length s)) s

-- `startMessage` returns the mark of the message with the buffer.
pub start_message : ProtoBuffer → ℕ → ℕ → Option (ℕ × ProtoBuffer)
start_message b index max_len_byte_count = do
  c ← tag b index len
  let d = ensure_capacity c max_len_byte_count
  some (
    bit_or (d.offset * 2 ^ 3 % 2 ^ 64) max_len_byte_count,
    record d { offset = d.offset + max_len_byte_count },
  )

-- The loop of `commitMessage` over the bytes before the last, and its last store.
pub put_length : ℕ → ProtoBuffer → ℕ → ℕ → Option ProtoBuffer
put_length zero b i actual_len = store b i (actual_len % 256)
put_length (suc left) b i actual_len = do
  c ← store b i (bit_or 0x80 actual_len % 256)
  put_length left c (i + 1) (actual_len / 2 ^ 7)

-- The assertion that the length fits is not part of a release build. With no byte reserved the
-- loop would count down from 2 ^ 64 - 1 and run out of the buffer: a fault.
pub commit_message : ProtoBuffer → ℕ → Option ProtoBuffer
commit_message b mark =
    let max_len_byte_count = bit_and mark 7 in
    let message_start = mark / 2 ^ 3 in
    let actual_len = (b.offset + 2 ^ 64 - (message_start + max_len_byte_count)) % 2 ^ 64 in
    if max_len_byte_count == 0
    then none
    else put_length (max_len_byte_count - 1) b message_start actual_len

pub data Released : Type 0 where
  released : (ℕ → ℕ) → Released

-- `release` hands the memory over and leaves an empty buffer.
pub release : ProtoBuffer → Released × ProtoBuffer
release b = (released b.contents, record b { capacity = 0; offset = 0 })
