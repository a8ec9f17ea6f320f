-- ===== src/WebServer/Request/RoundTrip.antt =====
-- A well-formed GET request through `http_request` of WebServer/src/webServer.cpp.
use cpp_tiny_lab.Base.{
  ◌>>=◌, ℕ, zero, suc, ◌-◌, ◌≤◌, ◌<◌, ◌≡◌, ◌≢◌, refl, ap, true, false, none, some, [], ◌∷◌, ◌++◌,
  ltb, lt→ltb, leb, arith, length, replicate, All, All-append,
}
use cpp_tiny_lab.Base.Bytes.{
  Bytes, IsText, codes, bytes_eq_iff, c_string, c_string-text, span, span-append, span-All,
  is_space,
}
use cpp_tiny_lab.WebServer.Decode.InPlace.{strdecode-decode}
use cpp_tiny_lab.WebServer.Decode.Reference.{decode}
use cpp_tiny_lab.WebServer.Request.{
  not_delimiter, not_space, protocal_char, first_line, scan_protocal, scan_file, scan_type,
  scan_request, serve, p_file, check_request, parse_request,
}

-- A byte of the path in a request line.
abbrev pub IsPathByte : ℕ → Type 0
IsPathByte c = (c ≢ 0) × (c ≢ b' ') × (c ≢ 13) × (c ≢ 10)

abbrev pub get_line : Bytes → Bytes
get_line p = codes "GET /" ++ (p ++ codes " HTTP/1.1")

All-mono : {P Q : ℕ → Type 0} → ((c : ℕ) → P c → Q c) → (s : Bytes) → All P s → All Q s
All-mono f [] h = tt
All-mono f (c ∷ s) h = (f c h.0, All-mono f s h.1)

path_not_space : (p : Bytes) → All IsPathByte p → All (λ c. not_space c ≡ true) p
path_not_space p h = All-mono (λ c k. ground arith) p h

path_not_delimiter : (p : Bytes) → All IsPathByte p → All (λ c. not_delimiter c ≡ true) p
path_not_delimiter p h = All-mono (λ c k. ground arith) p h

path-IsText : (p : Bytes) → All IsPathByte p → IsText p
path-IsText p h = All-mono (λ c k. k.0) p h

line_not_delimiter : (p : Bytes) → All IsPathByte p → All (λ c. not_delimiter c ≡ true) (get_line p)
line_not_delimiter p h =
    All-append _ (codes "GET /") (p ++ codes " HTTP/1.1") (ground arith)
      (All-append _ p (codes " HTTP/1.1") (path_not_delimiter p h) (ground arith))

first_line-get :
    (p rest : Bytes) → All IsPathByte p → first_line (get_line p ++ 13 ∷ rest) ≡ some (get_line p)
unfolding first_line
first_line-get p rest h = ap some (
    ap (λ (t : Bytes × Bytes). t.0)
      (span-append not_delimiter (get_line p) 13 rest (line_not_delimiter p h) refl))

span-type :
    (p : Bytes)
    → span not_space (get_line p) ≡ (codes "GET", codes " /" ++ (p ++ codes " HTTP/1.1"))
span-type p =
    span-append not_space (codes "GET") b' ' (b'/' ∷ (p ++ codes " HTTP/1.1")) (ground arith) refl

span-file :
    (p : Bytes)
    → All IsPathByte p
    → span not_space (b'/' ∷ (p ++ codes " HTTP/1.1")) ≡ (b'/' ∷ p, codes " HTTP/1.1")
span-file p h =
    span-append not_space (b'/' ∷ p) b' ' (codes "HTTP/1.1") (refl, path_not_space p h) refl

span-blank : (c : ℕ) (s : Bytes) → is_space c ≡ false → (span is_space (b' ' ∷ c ∷ s)).1 ≡ c ∷ s
span-blank c s h =
    ap (λ (t : Bytes × Bytes). t.1) (span-append is_space (b' ' ∷ []) c s (refl, tt) h)

span-protocal : span protocal_char (codes "HTTP/1.1") ≡ (codes "HTTP/1.1", [])
span-protocal = span-All protocal_char (codes "HTTP/1.1") (ground arith)

scan-get :
    (p : Bytes)
    → All IsPathByte p
    → length p ≤ 254
    → scan_request (get_line p)
      ≡ some (record { req_type = codes "GET"; file_name = b'/' ∷ p; protocal = codes "HTTP/1.1" })
unfolding scan_request
scan-get p h l =
    rw (span-type p, scan_type)
      (rw (span-blank b'/' (p ++ codes " HTTP/1.1") refl, scan_file)
        (rw (span-file p h, scan_file)
          (rw (lt→ltb (length (b'/' ∷ p)) 256 (omega arith)) (
            rw (span-blank b'H' (codes "TTP/1.1") refl, scan_protocal)
              (rw (span-protocal, scan_protocal) refl)))))

replicate-suc : {A : Type 0} (n : ℕ) (a : A) → 0 < n → replicate n a ≡ a ∷ replicate (n - 1) a
replicate-suc zero a h = absurd (omega arith)
replicate-suc (suc n) a h = let e : suc n - 1 ≡ n = omega arith in rw e refl

p_file-get :
    (p : Bytes)
    → 0 < length p
    → length p ≤ 254
    → p_file (b'/' ∷ p) ≡ p ++ 0 ∷ replicate (256 - length (b'/' ∷ p) - 1) 0
p_file-get [] h l = absurd (omega arith)
p_file-get (c ∷ p) h l =
    let e : leb (length (b'/' ∷ c ∷ p)) 1 ≡ false = ground arith in
    rw e (rw (replicate-suc {A = ℕ} (256 - length (b'/' ∷ c ∷ p)) 0 (omega arith)) refl)

check-get :
    (p : Bytes)
    → All IsPathByte p
    → 0 < length p
    → length p ≤ 254
    → IsText (decode p)
    → check_request
        (record { req_type = codes "GET"; file_name = b'/' ∷ p; protocal = codes "HTTP/1.1" })
      ≡ some (serve (decode p))
check-get p h z l t =
    rw
      (
        (bytes_eq_iff (codes "GET") (codes "GET")).1 refl,
        (bytes_eq_iff (codes "HTTP/1.1") (codes "HTTP/1.1")).1 refl,
      )
      (rw (p_file-get p z l) (
        rw (strdecode-decode p _ (path-IsText p h))
          (decoded (length p - length (decode p)) (256 - length (b'/' ∷ p) - 1))))
  where
    decoded :
        (m k : ℕ)
        → (c_string (decode p ++ (replicate m 0 ++ 0 ∷ replicate k 0)) >>= λ path.
            some (serve path))
          ≡ some (serve (decode p))
    decoded zero k = rw (c_string-text (decode p) (replicate k 0) t) refl
    decoded (suc m) k = rw (c_string-text (decode p) (replicate m 0 ++ 0 ∷ replicate k 0) t) refl

-- A request `GET /p HTTP/1.1` that fits into the buffer asks for the file whose name is `p` with its
-- escapes decoded, whatever lines follow, if `p` has 1 to 254 bytes and decodes to a text. No part of
-- `p` is refused: `..` leads out of the served directory.
pub parse_request-get :
    (n : ℕ) (p rest : Bytes)
    → All IsPathByte p
    → 0 < length p
    → length p ≤ 254
    → IsText (decode p)
    → IsText rest
    → length (get_line p ++ 13 ∷ rest) < n
    → parse_request n (get_line p ++ 13 ∷ rest) ≡ some (serve (decode p))
unfolding parse_request
parse_request-get n p rest h z l t tr s =
    rw (replicate-suc {A = ℕ} (n - length (get_line p ++ 13 ∷ rest)) 0 (omega arith)) (
      rw (c_string-text (get_line p ++ 13 ∷ rest) _ whole)
        (rw (first_line-get p rest h) (rw (scan-get p h l) (check-get p h z l t))))
  where
    whole : IsText (get_line p ++ 13 ∷ rest)
    whole =
        All-append _ (get_line p) (13 ∷ rest)
          (All-append _ (codes "GET /") (p ++ codes " HTTP/1.1") (ground arith)
            (All-append _ p (codes " HTTP/1.1") (path-IsText p h) (ground arith)))
          (ground arith, tr)

-- A request whose first line is one token of 16 bytes or more overruns the array `reqType`.
pub parse_request-overrun :
    (n : ℕ) (method rest : Bytes)
    → All IsPathByte method
    → 16 ≤ length method
    → IsText rest
    → length (method ++ 13 ∷ rest) < n
    → parse_request n (method ++ 13 ∷ rest) ≡ none
unfolding parse_request scan_request first_line
parse_request-overrun n [] rest h l tr s = absurd (omega arith)
parse_request-overrun n (c ∷ m) rest h l tr s =
    rw (replicate-suc {A = ℕ} (n - length ((c ∷ m) ++ 13 ∷ rest)) 0 (omega arith)) (
      rw
        (c_string-text ((c ∷ m) ++ 13 ∷ rest) _
          (All-append _ (c ∷ m) (13 ∷ rest) (path-IsText (c ∷ m) h) (ground arith, tr)))
        (rw (head_line) (
          rw (span-All not_space (c ∷ m) (path_not_space (c ∷ m) h), scan_type)
            (rw too_long refl))))
  where
    head_line : first_line ((c ∷ m) ++ 13 ∷ rest) ≡ some (c ∷ m)
    head_line =
        rw ((path_not_delimiter (c ∷ m) h).0, first_line)
          (ap some (
            ap (λ (t : Bytes × Bytes). t.0)
              (span-append not_delimiter (c ∷ m) 13 rest (path_not_delimiter (c ∷ m) h) refl)))

    too_long : ltb (length (c ∷ m)) 16 ≡ false
    too_long = ground arith
