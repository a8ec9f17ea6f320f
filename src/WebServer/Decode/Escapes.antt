-- ===== src/WebServer/Decode/Escapes.antt =====
-- What `strdecode` of WebServer/src/webServer.cpp makes of escaped and of plain names.
use cpp_tiny_lab.Base.{
  ℕ, ◌+◌, ◌-◌, ◌*◌, ◌/◌, ◌%◌, ◌<◌, ◌≡◌, ◌≢◌, refl, ap, true, [], ◌∷◌, if◌then◌else◌, ltb, arith,
  All,
}
use cpp_tiny_lab.Base.Bytes.{Bytes, is_xdigit}
use cpp_tiny_lab.WebServer.Decode.Reference.{decode, digit_value}

-- The digit that a browser writes for a value below 16.
abbrev pub hex_digit : ℕ → ℕ
hex_digit n = if ltb n 10 then b'0' + n else b'A' + (n - 10)

-- Each byte as an escape.
abbrev pub percent : Bytes → Bytes
percent [] = []
percent (c ∷ cs) = b'%' ∷ hex_digit (c / 16) ∷ hex_digit (c % 16) ∷ percent cs

is_xdigit-hex_digit : (n : ℕ) → n < 16 → is_xdigit (hex_digit n) ≡ true
is_xdigit-hex_digit n h = ground arith

digit_value-hex_digit : (n : ℕ) → n < 16 → digit_value (hex_digit n) ≡ n
digit_value-hex_digit n h = ground arith

decode-escape :
    (h l : ℕ) (rest : Bytes)
    → is_xdigit h ≡ true
    → is_xdigit l ≡ true
    → decode (b'%' ∷ h ∷ l ∷ rest) ≡ ((digit_value h * 16 + digit_value l) % 256) ∷ decode rest
unfolding decode
decode-escape h l rest p q = rw (p, decode) (rw (q, decode) refl)

-- Every byte string, NUL and `%` included, comes back from its escaped form.
pub decode-percent : (s : Bytes) → All (λ c. c < 256) s → decode (percent s) ≡ s
unfolding decode
decode-percent [] h = refl
decode-percent (c ∷ s) h =
    rw
      (decode-escape (hex_digit (c / 16)) (hex_digit (c % 16)) (percent s)
        (is_xdigit-hex_digit (c / 16) (omega (arith, h.0)))
        (is_xdigit-hex_digit (c % 16) (omega arith)))
      (rw
        (
          digit_value-hex_digit (c / 16) (omega (arith, h.0)),
          digit_value-hex_digit (c % 16) (omega arith),
          decode-percent s h.1,
        )
        (ap (λ t. t ∷ s) (omega (arith, h.0))))

-- A name without `%` is left as it is.
pub decode-plain : (s : Bytes) → All (λ c. c ≢ b'%') s → decode s ≡ s
unfolding decode
decode-plain [] h = refl
decode-plain (c ∷ []) h = refl
decode-plain (c ∷ x ∷ []) h = refl
decode-plain (c ∷ x ∷ y ∷ s) h = ground (arith, decode-plain (x ∷ y ∷ s) h.1)
