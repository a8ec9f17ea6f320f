-- ===== src/Base/Decimal.antt =====
-- `%d` of printf, and the value of a decimal numeral.
use Prim.Native.Nat.{ℕ, zero, suc, ◌+◌, ◌-◌, ◌*◌, ◌/◌, ◌%◌, ◌≤◌, ◌<◌}
use mathlib.Core.Path.{◌≡◌, refl, ◌∙◌}
use mathlib.Core.Bool.{true, false}
use mathlib.Core.Logic.{inl, inr}
use mathlib.Core.List.{[], ◌∷◌, ◌++◌}
use native.Mathlib.Omega.{arith}
use cpp_tiny_lab.Base.Tests.{ltb, Bool-cases}
use cpp_tiny_lab.Base.Lists.{All, All-append}
use cpp_tiny_lab.Base.Bytes.{Bytes}

unfoldable pub decimal_loop : ℕ → ℕ → Bytes
decimal_loop zero n = []
decimal_loop (suc fuel) n = elim (ltb n 10) [
  | true ↦ (b'0' + n) ∷ []
  | false ↦ decimal_loop fuel (n / 10) ++ (b'0' + n % 10) ∷ []
]

unfoldable pub decimal : ℕ → Bytes
unfolding decimal_loop
decimal n = decimal_loop (suc n) n

-- The value of digits behind a value already read.
abbrev pub value_from : ℕ → Bytes → ℕ
value_from acc [] = acc
value_from acc (c ∷ cs) = value_from (acc * 10 + (c - b'0')) cs

pub value_from-append :
    (acc : ℕ) (s t : Bytes) → value_from acc (s ++ t) ≡ value_from (value_from acc s) t
value_from-append acc [] t = refl
value_from-append acc (c ∷ s) t = value_from-append (acc * 10 + (c - b'0')) s t

value-decimal_loop : (fuel n : ℕ) → n < fuel → value_from 0 (decimal_loop fuel n) ≡ n
unfolding decimal_loop
value-decimal_loop zero n h = absurd (omega arith)
value-decimal_loop (suc fuel) n h = elim (Bool-cases (ltb n 10)) [
  | inl small ↦ rw (small, decimal_loop) (omega arith)
  | inr big ↦
      rw (big, decimal_loop)
        (value_from-append 0 (decimal_loop fuel (n / 10)) ((b'0' + n % 10) ∷ [])
          ∙ ground (arith, value-decimal_loop fuel (n / 10)))
]

-- What `%d` prints reads back as the number.
pub value-decimal : (n : ℕ) → value_from 0 (decimal n) ≡ n
unfolding decimal
value-decimal n = value-decimal_loop (suc n) n (omega arith)

abbrev pub IsDigit : ℕ → Type 0
IsDigit c = (b'0' ≤ c) × (c ≤ b'9')

decimal_loop-IsDigit : (fuel n : ℕ) → All IsDigit (decimal_loop fuel n)
unfolding decimal_loop
decimal_loop-IsDigit zero n = tt
decimal_loop-IsDigit (suc fuel) n = elim (Bool-cases (ltb n 10)) [
  | inl small ↦ rw (small, decimal_loop) ((ground arith, ground arith), tt)
  | inr big ↦
      rw (big, decimal_loop)
        (All-append IsDigit (decimal_loop fuel (n / 10)) _ (decimal_loop-IsDigit fuel (n / 10))
          ((ground arith, ground arith), tt))
]

pub decimal-IsDigit : (n : ℕ) → All IsDigit (decimal n)
unfolding decimal
decimal-IsDigit n = decimal_loop-IsDigit (suc n) n
