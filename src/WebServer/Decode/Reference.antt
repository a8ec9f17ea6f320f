-- ===== src/WebServer/Decode/Reference.antt =====
-- The decoder of byte strings that `strdecode` of WebServer/src/webServer.cpp implements, and what one
-- round of its loop reads.
use cpp_tiny_lab.Base.{
  ℕ, ◌+◌, ◌-◌, ◌*◌, ◌%◌, ◌≡◌, refl, ap, true, false, ◌&&◌, some, [], ◌∷◌, ◌++◌, inl, inr,
  Bool-cases, if◌then◌else◌, ◌==◌, arith, length, get_elem?, get_elem?-append_right,
}
use cpp_tiny_lab.Base.Bytes.{Bytes, within, is_xdigit}
use cpp_tiny_lab.WebServer.Decode.{hextod, unescape}

-- The value of a hexadecimal digit; 0 for any other byte.
abbrev pub digit_value : ℕ → ℕ
digit_value c =
    if within b'0' b'9' c
    then c - b'0'
    else if within b'a' b'f' c
    then c - b'a' + 10
    else if within b'A' b'F' c
    then c - b'A' + 10
    else 0

-- Each `%` with two hexadecimal digits behind it stands for one byte, any other byte for itself.
unfoldable pub decode : Bytes → Bytes
decode [] = []
decode (c ∷ []) = c ∷ []
decode (c ∷ h ∷ []) = c ∷ h ∷ []
decode (c ∷ h ∷ l ∷ rest) = elim (c == b'%' && is_xdigit h && is_xdigit l) [
  | true ↦ ((digit_value h * 16 + digit_value l) % 256) ∷ decode rest
  | false ↦ c ∷ decode (h ∷ l ∷ rest)
]

hextod-xdigit : (c : ℕ) → is_xdigit c ≡ true → hextod c ≡ some (digit_value c)
unfolding hextod
hextod-xdigit c h = ground arith

pub unescape-append : (u v : Bytes) → unescape (u ++ v) (length u) ≡ unescape v 0
unfolding unescape
unescape-append u v =
    let e : length u ≡ length u + 0 = omega arith in
    ground (
      arith,
      get_elem?-append_right u v 0,
      ap (get_elem? (u ++ v)) e,
      get_elem?-append_right u v 1,
      get_elem?-append_right u v 2,
    )

-- One round takes one byte, or an escape, off the text.
pub data Round (rest : Bytes) : Bytes → Type 0 where
  plain :
      (c : ℕ) (s : Bytes)
      → unescape (c ∷ (s ++ 0 ∷ rest)) 0 ≡ some (c, 1)
      → decode (c ∷ s) ≡ c ∷ decode s
      → Round rest (c ∷ s)
  escaped :
      (a b c x : ℕ) (s : Bytes)
      → unescape (a ∷ b ∷ c ∷ (s ++ 0 ∷ rest)) 0 ≡ some (x, 3)
      → decode (a ∷ b ∷ c ∷ s) ≡ x ∷ decode s
      → Round rest (a ∷ b ∷ c ∷ s)

pub Round-cases : (c : ℕ) (s rest : Bytes) → Round rest (c ∷ s)
unfolding unescape decode
Round-cases c [] rest = plain c [] (ground arith) refl
Round-cases c (h ∷ []) rest = plain c (h ∷ []) (ground arith) refl
Round-cases c (h ∷ l ∷ s) rest = elim (Bool-cases (c == b'%' && is_xdigit h && is_xdigit l)) [
  | inl e ↦
      escaped c h l ((digit_value h * 16 + digit_value l) % 256) s
        (ground (arith, hextod-xdigit h, hextod-xdigit l)) (rw (e, decode) refl)
  | inr e ↦
      plain c (h ∷ l ∷ s) (ground (arith, hextod-xdigit h, hextod-xdigit l)) (rw (e, decode) refl)
]
