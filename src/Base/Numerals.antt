-- ===== src/Base/Numerals.antt =====
-- `%d` on an `int`, and `atoi` as the GNU C library has it.
use Prim.Native.Nat.{ℕ, zero, suc, ◌+◌, ◌-◌, ◌*◌, ◌/◌, ◌%◌, ◌^◌, ◌≤◌, ◌<◌, min}
use mathlib.Core.Path.{◌≡◌, refl, ◌∙◌}
use mathlib.Core.Bool.{Bool, true, false}
use mathlib.Core.Logic.{inl, inr}
use mathlib.Core.List.{[], ◌∷◌}
use native.Mathlib.Omega.{arith}
use cpp_tiny_lab.Base.Tests.{ltb, ◌==◌, if◌then◌else◌, Bool-cases}
use cpp_tiny_lab.Base.Lists.{All, length, length-append}
use cpp_tiny_lab.Base.Bytes.{Bytes, span, span-All, within, is_space}
use cpp_tiny_lab.Base.Decimal.{
  decimal, decimal_loop, value_from, value-decimal, IsDigit, decimal-IsDigit,
}
use cpp_tiny_lab.Base.Int.{ℤ, pos, negsuc}

-- The range of an `int`.
abbrev pub IsInt : ℤ → Type 0
IsInt (pos n) = n < 2 ^ 31
IsInt (negsuc n) = n < 2 ^ 31

unfoldable pub decimal_ℤ : ℤ → Bytes
decimal_ℤ (pos n) = decimal n
decimal_ℤ (negsuc n) = b'-' ∷ decimal (suc n)

-- The conversion of a `long` to an `int`.
unfoldable pub to_int32 : ℤ → ℤ
to_int32 (pos n) = let m = n % 2 ^ 32 in if ltb m (2 ^ 31) then pos m else negsuc (2 ^ 32 - 1 - m)
to_int32 (negsuc n) =
    let m = n % 2 ^ 32 in if ltb m (2 ^ 31) then negsuc m else pos (2 ^ 32 - 1 - m)

-- The conversion of an `int` to the `uint16_t` of a port.
unfoldable pub to_uint16 : ℤ → ℕ
to_uint16 (pos n) = n % 2 ^ 16
to_uint16 (negsuc n) = 2 ^ 16 - 1 - n % 2 ^ 16

-- The value of digits with a sign, within the range of a `long`.
unfoldable pub to_long : Bool → ℕ → ℤ
to_long false n = pos (min n (2 ^ 63 - 1))
to_long true zero = pos 0
to_long true (suc n) = negsuc (min n (2 ^ 63 - 1))

abbrev pub is_digit : ℕ → Bool
is_digit c = within b'0' b'9' c

abbrev digits_value : Bool → Bytes → ℤ
digits_value negative s = to_int32 (to_long negative (value_from 0 (span is_digit s).0))

-- What follows the spaces in front.
abbrev signed_value : Bytes → ℤ
signed_value [] = digits_value false []
signed_value (c ∷ s) =
    if c == b'-'
    then digits_value true s
    else if c == b'+'
    then digits_value false s
    else digits_value false (c ∷ s)

unfoldable pub atoi : Bytes → ℤ
unfolding span to_long to_int32
atoi s = signed_value (span is_space s).1

digit-is_digit : (s : Bytes) → All IsDigit s → All (λ c. is_digit c ≡ true) s
digit-is_digit [] h = tt
digit-is_digit (c ∷ s) h = (ground (arith, h.0), digit-is_digit s h.1)

digits_value-decimal :
    (negative : Bool) (n : ℕ) → digits_value negative (decimal n) ≡ to_int32 (to_long negative n)
digits_value-decimal negative n =
    rw
      (
        span-All is_digit (decimal n) (digit-is_digit (decimal n) (decimal-IsDigit n)),
        value-decimal n,
      )
      refl

-- A text that begins with a digit has neither spaces nor a sign in front.
signed_value-digits :
    (s : Bytes) → All IsDigit s → signed_value (span is_space s).1 ≡ digits_value false s
unfolding span
signed_value-digits [] h = refl
signed_value-digits (c ∷ s) h = ground (arith, h.0)

to_int32-to_long : (n : ℕ) → n < 2 ^ 31 → to_int32 (to_long false n) ≡ pos n
unfolding to_int32 to_long
to_int32-to_long n h = ground arith

to_int32-to_long-negative : (n : ℕ) → n < 2 ^ 31 → to_int32 (to_long true (suc n)) ≡ negsuc n
unfolding to_int32 to_long
to_int32-to_long-negative n h = ground arith

-- What `%d` prints of an `int`, `atoi` reads back.
pub atoi-decimal_ℤ : (z : ℤ) → IsInt z → atoi (decimal_ℤ z) ≡ z
unfolding atoi decimal_ℤ
atoi-decimal_ℤ (pos n) h =
    signed_value-digits (decimal n) (decimal-IsDigit n)
    ∙ digits_value-decimal false n
    ∙ to_int32-to_long n h
atoi-decimal_ℤ (negsuc n) h = digits_value-decimal true (suc n) ∙ to_int32-to_long-negative n h

abbrev tens : ℕ → ℕ
tens zero = 1
tens (suc k) = 10 * tens k

length-decimal_loop : (fuel k n : ℕ) → n < tens (suc k) → length (decimal_loop fuel n) ≤ suc k
unfolding decimal_loop
length-decimal_loop zero k n h = omega arith
length-decimal_loop (suc fuel) zero n h = ground arith
length-decimal_loop (suc fuel) (suc k) n h = elim (Bool-cases (ltb n 10)) [
  | inl small ↦ rw (small, decimal_loop) (omega arith)
  | inr big ↦
      rw (big, decimal_loop)
        (omega (
          arith,
          length-append (decimal_loop fuel (n / 10)) ((b'0' + n % 10) ∷ []),
          length-decimal_loop fuel k (n / 10) (omega (arith, h)),
        ))
]

-- An `int` takes 11 bytes at most.
pub length-decimal_ℤ : (z : ℤ) → IsInt z → length (decimal_ℤ z) ≤ 11
unfolding decimal_ℤ decimal
length-decimal_ℤ (pos n) h = omega (arith, length-decimal_loop (suc n) 9 n (omega (arith, h)))
length-decimal_ℤ (negsuc n) h =
    omega (arith, length-decimal_loop (suc (suc n)) 9 (suc n) (omega (arith, h)))

length-decimal_loop_pos : (fuel n : ℕ) → 0 < length (decimal_loop (suc fuel) n)
unfolding decimal_loop
length-decimal_loop_pos fuel n = elim (Bool-cases (ltb n 10)) [
  | inl small ↦ rw (small, decimal_loop) (omega arith)
  | inr big ↦
      rw (big, decimal_loop)
        (omega (arith, length-append (decimal_loop fuel (n / 10)) ((b'0' + n % 10) ∷ [])))
]

-- And one byte at least.
pub length-decimal_ℤ_pos : (z : ℤ) → 0 < length (decimal_ℤ z)
unfolding decimal_ℤ decimal
length-decimal_ℤ_pos (pos n) = length-decimal_loop_pos n n
length-decimal_ℤ_pos (negsuc n) = omega arith
