-- ===== src/Base/Lengths.antt =====
-- What a reading function leaves of a text is not longer than the text.
use Prim.Native.Nat.{ℕ, suc, ◌+◌, ◌*◌, ◌≤◌}
use mathlib.Core.Bool.{Bool, ◌&&◌, ◌||◌}
use mathlib.Core.Option.{Option, none, some}
use mathlib.Core.List.{[], ◌∷◌}
use native.Mathlib.Omega.{arith}
use async_profiler.Base.Int.{ℤ}
use async_profiler.Base.Tests.{ltb, ◌==◌, if_both}
use async_profiler.Base.Lists.{length}
use async_profiler.Base.Texts.{
  Text, after_char, read_digits, digit_value, skip_spaces, is_space, sign_of, scan_in, scan_any,
  scan_number, strtol, is_digit_of, saturated,
}

-- What an optional rest of a text fits into.
abbrev pub Within : ℕ → Option Text → Type 0
Within n none = Unit
Within n (some rest) = length rest ≤ n

abbrev pub NumberWithin {ℓ} : {A : Type ℓ} → ℕ → Option (A × Text) → Type 0
NumberWithin n none = Unit
NumberWithin n (some (_, rest)) = length rest ≤ n

pub after_char-Within : (n c : ℕ) (s : Text) → length s ≤ suc n → Within n (after_char c s)
unfolding after_char
after_char-Within n c [] h = tt
after_char-Within n c (x ∷ xs) h =
    if_both (Within n) (x == c) _ _ (omega arith) (after_char-Within n c xs (omega arith))

pub skip_spaces-le : (s : Text) → length (skip_spaces s) ≤ length s
unfolding skip_spaces
skip_spaces-le [] = omega arith
skip_spaces-le (c ∷ cs) =
    if_both (λ (t : Text). length t ≤ suc (length cs)) (is_space c) _ _
      (omega (arith, skip_spaces-le cs)) (omega arith)

pub sign_of-le : (s : Text) → length (sign_of s).1 ≤ length s
sign_of-le [] = omega arith
sign_of-le (c ∷ cs) =
    if_both (λ (t : Bool × Text). length t.1 ≤ suc (length cs)) (c == b'-') _ _ (omega arith)
      (if_both (λ (t : Bool × Text). length t.1 ≤ suc (length cs)) (c == b'+') _ _ (omega arith)
        (omega arith))

pub read_digits-le : (base acc : ℕ) (s : Text) → length (read_digits base acc s).1 ≤ length s
unfolding read_digits
read_digits-le base acc [] = omega arith
read_digits-le base acc (c ∷ cs) =
    if_both (λ (t : ℕ × Text). length t.1 ≤ suc (length cs)) (ltb (digit_value c) base) _ _
      (omega (arith, read_digits-le base (acc * base + digit_value c) cs)) (omega arith)

scan_in-Within : (base n : ℕ) (s : Text) → length s ≤ n → NumberWithin n (scan_in base s)
unfolding scan_in
scan_in-Within base n s h =
    if_both (NumberWithin n) (is_digit_of base s) _ _ (omega (arith, read_digits-le base 0 s)) tt

scan_any-Within : (n : ℕ) (s : Text) → length s ≤ n → NumberWithin n (scan_any s)
unfolding scan_any
scan_any-Within n [] h = tt
scan_any-Within n (c ∷ []) h = scan_in-Within 10 n (c ∷ []) h
scan_any-Within n (c ∷ d ∷ s) h =
    if_both (NumberWithin n) (c == b'0') _ _
      (if_both (NumberWithin n) (((d == b'x') || (d == b'X')) && is_digit_of 16 s) _ _
        (scan_in-Within 16 n s (omega arith)) (scan_in-Within 8 n (c ∷ d ∷ s) h))
      (scan_in-Within 10 n (c ∷ d ∷ s) h)

scan_number-Within : (base n : ℕ) (s : Text) → length s ≤ n → NumberWithin n (scan_number base s)
unfolding scan_number
scan_number-Within base n s h =
    if_both (NumberWithin n) (base == 0) _ _ (scan_any-Within n s h) (scan_in-Within base n s h)

signed :
    (minus : Bool) (n : ℕ) (found : Option (ℕ × Text))
    → NumberWithin n found
    → NumberWithin n (elim found as (λ _. Option (ℤ × Text)) [
      | none ↦ none
      | some (v, rest) ↦ some (saturated minus v, rest)
    ])
signed minus n none h = tt
signed minus n (some (v, rest)) h = h

pub strtol-Within : (base n : ℕ) (s : Text) → length s ≤ n → NumberWithin n (strtol base s)
unfolding strtol
strtol-Within base n s h =
    let (minus, digits) = sign_of (skip_spaces s) in
    signed minus n (scan_number base digits) (
      scan_number-Within base n digits
        (omega (arith, skip_spaces-le s, sign_of-le (skip_spaces s))))
