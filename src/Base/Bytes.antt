-- ===== src/Base/Bytes.antt =====
-- Byte strings, and what the sources use of <string.h>, <ctype.h> and printf on them.
use Prim.Native.Char.{code}
use Prim.Native.String.{String}
use Prim.Native.Nat.{ℕ, ◌+◌}
use mathlib.Core.Path.{◌≡◌, refl}
use mathlib.Core.Logic.{◌↔◌, ◌≢◌}
use mathlib.Core.Bool.{Bool, true, false, ◌&&◌, ◌||◌}
use mathlib.Core.List.{List, [], ◌∷◌, ◌++◌}
use mathlib.Core.Option
use mathlib.Core.Option.{Option, none, some}
use native.Mathlib.Omega.{arith}
use cpp_tiny_lab.Base.Tests.{leb, ◌==◌, if◌then◌else◌}
use cpp_tiny_lab.Base.Lists.{get_elem?, set, All}

abbrev pub Bytes : Type 0
Bytes = List ℕ

-- The bytes of an ASCII literal.
abbrev pub codes : String → Bytes
codes String.[] = []
codes (String.◌∷◌ c s) = code c ∷ codes s

-- Equality of byte strings: `strcmp(a, b) == 0`.
unfoldable pub bytes_eq : Bytes → Bytes → Bool
bytes_eq [] [] = true
bytes_eq (x ∷ xs) (y ∷ ys) = (x == y) && bytes_eq xs ys
bytes_eq xs ys = false

pub bytes_eq_iff : (a b : Bytes) → (bytes_eq a b ≡ true) ↔ (a ≡ b)
unfolding bytes_eq
bytes_eq_iff [] [] = ground arith
bytes_eq_iff [] (y ∷ ys) = ground arith
bytes_eq_iff (x ∷ xs) [] = ground arith
bytes_eq_iff (x ∷ xs) (y ∷ ys) = ground (arith, bytes_eq_iff xs ys)

-- How often a list has a text.
abbrev pub count : Bytes → List Bytes → ℕ
count m [] = 0
count m (x ∷ xs) = (if bytes_eq x m then 1 else 0) + count m xs

-- No byte is NUL, as in the text of a C string.
abbrev pub IsText : Bytes → Type 0
IsText s = All (λ c. c ≢ 0) s

-- A write through a pointer into an array, `none` out of its bounds.
abbrev pub write : Bytes → ℕ → ℕ → Option Bytes
write buf i v = elim (get_elem? buf i) [ none ↦ none | some old ↦ some (set buf i v) ]

abbrev pub within : ℕ → ℕ → ℕ → Bool
within lo hi c = leb lo c && leb c hi

-- isxdigit
abbrev pub is_xdigit : ℕ → Bool
is_xdigit c = within b'0' b'9' c || within b'a' b'f' c || within b'A' b'F' c

-- The text of a C string: what stands before the first NUL; `none` where the array has none.
unfoldable pub c_string : Bytes → Option Bytes
c_string [] = none
c_string (c ∷ cs) = if c == 0 then some [] else Option.map (λ s. c ∷ s) (c_string cs)

pub c_string-text : (s rest : Bytes) → IsText s → c_string (s ++ 0 ∷ rest) ≡ some s
unfolding c_string
c_string-text [] rest t = refl
c_string-text (c ∷ s) rest t = ground (arith, c_string-text s rest t.1)

pub c_string-none : (s : Bytes) → IsText s → c_string s ≡ none
unfolding c_string
c_string-none [] t = refl
c_string-none (c ∷ s) t = ground (arith, c_string-none s t.1)

-- strrchr: the part of a text that begins at the last `c`.
pub strrchr : Bytes → ℕ → Option Bytes
strrchr [] c = none
strrchr (x ∷ xs) c = elim (strrchr xs c) [
  | some t ↦ some t
  | none ↦ if x == c then some (x ∷ xs) else none
]

pub strrchr-none : (s : Bytes) (c : ℕ) → All (λ x. x ≢ c) s → strrchr s c ≡ none
unfolding strrchr
strrchr-none [] c h = refl
strrchr-none (x ∷ s) c h = ground (arith, strrchr-none s c h.1)

pub strrchr-append :
    (s t : Bytes) (c : ℕ) → All (λ x. x ≢ c) t → strrchr (s ++ c ∷ t) c ≡ some (c ∷ t)
unfolding strrchr
strrchr-append [] t c h = ground (arith, strrchr-none t c h)
strrchr-append (x ∷ s) t c h = ground (arith, strrchr-append s t c h)

-- The longest prefix whose bytes pass a test, and the rest.
unfoldable pub span : (ℕ → Bool) → Bytes → Bytes × Bytes
span test [] = ([], [])
span test (c ∷ cs) = let (a, b) = span test cs in if test c then (c ∷ a, b) else ([], c ∷ cs)

pub span-append :
    (test : ℕ → Bool) (s : Bytes) (c : ℕ) (rest : Bytes)
    → All (λ x. test x ≡ true) s
    → test c ≡ false
    → span test (s ++ c ∷ rest) ≡ (s, c ∷ rest)
unfolding span
span-append test [] c rest h n = rw n refl
span-append test (x ∷ s) c rest h n = rw (h.0, span-append test s c rest h.1 n) refl

pub span-All : (test : ℕ → Bool) (s : Bytes) → All (λ x. test x ≡ true) s → span test s ≡ (s, [])
unfolding span
span-All test [] h = refl
span-All test (x ∷ s) h = rw (h.0, span-All test s h.1) refl

-- isspace
abbrev pub is_space : ℕ → Bool
is_space c = c == b' ' || within 9 13 c
