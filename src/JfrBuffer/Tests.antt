-- ===== src/JfrBuffer/Tests.antt =====
-- Runs of the encodings of class Buffer of src/flightRecorder.cpp.
use async_profiler.Base.{◌^◌, ◌-◌, ◌≡◌, refl, arith, [], ◌∷◌, none, some}
use async_profiler.JfrBuffer.{put_var32, put_var64, put64, put_utf8, put_var32_at}
use async_profiler.JfrBuffer.VarInt.{Reads, put_var-Reads}

nine : put_var64 (2 ^ 64 - 1) [] ≡ (255 ∷ 255 ∷ 255 ∷ 255 ∷ 255 ∷ 255 ∷ 255 ∷ 255 ∷ 255 ∷ [])
unfolding put_var64
nine = refl

two : put_var64 300 (7 ∷ []) ≡ (7 ∷ 172 ∷ 2 ∷ [])
unfolding put_var64
two = refl

five_bytes : put_var32_at 1 300 (9 ∷ 0 ∷ 0 ∷ 0 ∷ 0 ∷ 0 ∷ []) ≡ (9 ∷ 172 ∷ 130 ∷ 128 ∷ 128 ∷ 0 ∷ [])
unfolding put_var32_at
five_bytes = refl

network_order : put64 258 [] ≡ (0 ∷ 0 ∷ 0 ∷ 0 ∷ 0 ∷ 0 ∷ 1 ∷ 2 ∷ [])
unfolding put64
network_order = refl

null_text : put_utf8 none [] ≡ (0 ∷ [])
unfolding put_utf8
null_text = refl

short_text : put_utf8 (some (65 ∷ 66 ∷ [])) [] ≡ (3 ∷ 2 ∷ 65 ∷ 66 ∷ [])
unfolding put_utf8
short_text = refl

put_var-Reads_example :
    Reads 8 (2 ^ 63) (1 ∷ []) (put_var64 (2 ^ 63) (1 ∷ []))
    × Reads 8 70000 (1 ∷ []) (put_var32 70000 (1 ∷ []))
put_var-Reads_example = put_var-Reads (2 ^ 63) 70000 (1 ∷ []) (omega arith) (omega arith)
