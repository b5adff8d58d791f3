-- ===== src/ProtoBuffer/Tests.antt =====
-- Runs of the protobuf buffer on concrete inputs.
use async_profiler.Base.{◌+◌, ◌*◌, ◌≡◌, refl, arith, [], ◌∷◌, ◌++◌}
use async_profiler.ProtoBuffer.{
  ProtoBuffer, len, put_var_int, field_bytes, start_message, commit_message,
}
use async_profiler.ProtoBuffer.View.{view, cells, Appends, Grown}
use async_profiler.ProtoBuffer.VarInt.{groups, AppendsVarInt, put_var_int-decodes}
use async_profiler.ProtoBuffer.Fields.{field_bytes-Appends}
use async_profiler.ProtoBuffer.Messages.{
  Opened, Opens, start_message-Opens, Commits, commit_message-Commits,
}

-- A buffer of 16 bytes that is written up to byte 15: each of the operations makes it grow.
abbrev nearly_full : ProtoBuffer
nearly_full = record { contents = λ i. 10 + i; capacity = 16; offset = 15 }

put_var_int-decodes_example : AppendsVarInt nearly_full 300 (put_var_int nearly_full 300)
put_var_int-decodes_example = put_var_int-decodes nearly_full 300 (omega arith) (omega arith)

field_bytes-Appends_example :
    Appends nearly_full
      (groups 9 (5 * 8 + len) ++ (groups 9 2 ++ (65 ∷ 66 ∷ [])))
      (field_bytes nearly_full 5 (65 ∷ 66 ∷ []))
field_bytes-Appends_example =
    field_bytes-Appends nearly_full 5 (65 ∷ 66 ∷ []) (omega arith) (omega arith) (omega arith)

start_message-Opens_example :
    Opens (view nearly_full ++ groups 9 (2 * 8 + len)) 5 (start_message nearly_full 2 5)
start_message-Opens_example =
    start_message-Opens nearly_full 2 5 (omega arith) (omega arith) (omega arith) (omega arith)

-- A message with one byte of room behind the tag, before and after a body of three bytes.
abbrev open_message : ProtoBuffer
open_message = record { contents = λ i. 10 + i; capacity = 16; offset = 2 }

abbrev with_body : ProtoBuffer
with_body = record { contents = λ i. 10 + i; capacity = 16; offset = 5 }

open_message-Opened : Opened (10 ∷ []) 1 9 open_message
unfolding view cells
open_message-Opened = record {
  hole = 11 ∷ [];
  reserved = refl;
  wide = refl;
  marked = refl;
  within = omega arith;
}

with_body-Grown : Grown open_message (12 ∷ 13 ∷ 14 ∷ []) with_body
unfolding view cells
with_body-Grown = record { appended = refl; moved = refl; within = omega arith; room = omega arith }

commit_message-Commits_example : Commits (10 ∷ []) (12 ∷ 13 ∷ 14 ∷ []) (commit_message with_body 9)
commit_message-Commits_example =
    commit_message-Commits open_message with_body 0 9 (10 ∷ []) (12 ∷ 13 ∷ 14 ∷ [])
      open_message-Opened with_body-Grown (omega arith) (omega arith) (omega arith)

groups_300 : groups 9 300 ≡ 172 ∷ 2 ∷ []
unfolding groups
groups_300 = refl
