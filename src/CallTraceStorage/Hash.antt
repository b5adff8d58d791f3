-- ===== src/CallTraceStorage/Hash.antt =====
-- `calcHash` of src/callTraceStorage.cpp: MurmurHash64A over the words of the frames.
use async_profiler.Base.{ℕ, ◌+◌, ◌*◌, ◌/◌, ◌%◌, ◌^◌, List, [], ◌∷◌, bit_xor, length}

-- ASGCT_CallFrame on a 64-bit machine: two ints, and the method id.
pub record CallFrame : Type 0 where
  pub bci : ℕ
  pub padding : ℕ
  pub method_id : ℕ

-- The two 64-bit words of a frame, little endian.
unfoldable pub words : List CallFrame → List ℕ
words [] = []
words (f ∷ fs) = (f.bci % 2 ^ 32 + f.padding % 2 ^ 32 * 2 ^ 32) ∷ (f.method_id % 2 ^ 64 ∷ words fs)

abbrev m : ℕ
m = 0xc6a4a7935bd1e995

abbrev r : ℕ
r = 47

unfoldable pub mix_word : ℕ → ℕ → ℕ
mix_word h k =
    let k₁ = k * m % 2 ^ 64 in
    let k₂ = bit_xor k₁ (k₁ / 2 ^ r) in let k₃ = k₂ * m % 2 ^ 64 in bit_xor h k₃ * m % 2 ^ 64

unfoldable pub mix_words : ℕ → List ℕ → ℕ
unfolding mix_word
mix_words h [] = h
mix_words h (k ∷ ks) = mix_words (mix_word h k) ks

-- `len` is a multiple of 16, so the branch for a last half word is never taken.
unfoldable pub calc_hash : List CallFrame → ℕ
unfolding words mix_words
calc_hash frames =
    let len = length frames * 16 in
    let h₁ = mix_words (len * m % 2 ^ 64) (words frames) in
    let h₂ = bit_xor h₁ (h₁ / 2 ^ r) in let h₃ = h₂ * m % 2 ^ 64 in bit_xor h₃ (h₃ / 2 ^ r)
