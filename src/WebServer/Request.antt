-- ===== src/WebServer/Request.antt =====
-- How `http_request` of WebServer/src/webServer.cpp reads the request line. `none` is undefined
-- behaviour: an access outside an array.
pub mod RoundTrip
use mathlib.Core.Option
use cpp_tiny_lab.Base.{
  ◌>>=◌, ℕ, zero, suc, ◌+◌, ◌-◌, ◌≡◌, Bool, true, false, not, ◌&&◌, ◌||◌, Option, none, some, List,
  [], ◌∷◌, ◌++◌, if◌then◌else◌, ◌==◌, ltb, leb, length, drop, replicate,
}
use cpp_tiny_lab.Base.Bytes.{Bytes, codes, bytes_eq, c_string, span, is_space}
use cpp_tiny_lab.WebServer.Decode.{strdecode}

-- `buf` after `memset` and a `recv` of `received`, in an array of `n` bytes.
abbrev pub received_buf : ℕ → Bytes → Bytes
received_buf n received = received ++ replicate (n - length received) 0

abbrev pub not_delimiter : ℕ → Bool
not_delimiter c = not (c == 13 || c == 10)

-- strtok with "\r\n": delimiters are skipped, and a token runs to the next one. `lines[0]` is the
-- first token; where there is none the access is outside the vector.
pub first_line : Bytes → Option Bytes
first_line [] = none
first_line (c ∷ cs) = elim (not_delimiter c) [
  | true ↦ some (span not_delimiter (c ∷ cs)).0
  | false ↦ first_line cs
]

-- The three arrays that `sscanf` fills.
pub record Fields : Type 0 where
  pub req_type : Bytes
  pub file_name : Bytes
  pub protocal : Bytes

-- A token and its NUL must fit into its array.
abbrev pub fits : ℕ → Bytes → Option Bytes
fits size s = if ltb (length s) size then some s else none

abbrev pub not_space : ℕ → Bool
not_space c = not (c == b' ')

-- `%[^\\0]`: neither a backslash nor the digit 0.
abbrev pub protocal_char : ℕ → Bool
protocal_char c = not (c == b'\\' || c == b'0')

scan_protocal : Bytes → Bytes → Bytes → Option Fields
scan_protocal r f rest = fits 16 (span protocal_char rest).0 >>= λ p.
    some (record { req_type = r; file_name = f; protocal = p })

-- A conversion that matches nothing ends the scan; the arrays behind it stay empty.
scan_file : Bytes → Bytes × Bytes → Option Fields
unfolding scan_protocal
scan_file r ([], rest) = some (record { req_type = r; file_name = []; protocal = [] })
scan_file r (c ∷ cs, rest) = fits 256 (c ∷ cs) >>= λ f. scan_protocal r f (span is_space rest).1

scan_type : Bytes × Bytes → Option Fields
unfolding scan_file
scan_type ([], rest) = some (record { req_type = []; file_name = []; protocal = [] })
scan_type (c ∷ cs, rest) =
    fits 16 (c ∷ cs) >>= λ r. scan_file r (span not_space (span is_space rest).1)

-- `sscanf(requestLine, "%[^ ] %[^ ] %[^\\0]", reqType, fileName, protocal)`
unfoldable pub scan_request : Bytes → Option Fields
unfolding scan_type
scan_request line = scan_type (span not_space line)

-- What the request line asks for.
pub data Request : Type 0 where
  refused : Request
  serve : Bytes → Request

-- The array `pFile` points into, with the bytes from there to its end.
abbrev pub p_file : Bytes → Bytes
p_file name =
    if leb (length name) 1
    then codes "./" ++ replicate 254 0
    else drop 1 (name ++ replicate (256 - length name) 0)

abbrev pub check_request : Fields → Option Request
check_request fields =
    if not (bytes_eq fields.req_type (codes "GET"))
      || not (bytes_eq fields.protocal (codes "HTTP/1.1"))
    then some refused
    else (strdecode (p_file fields.file_name) >>= λ decoded.
        c_string decoded >>= λ path. some (serve path))

unfoldable pub parse_request : ℕ → Bytes → Option Request
parse_request n received = c_string (received_buf n received) >>= λ text.
    first_line text >>= λ line. scan_request line >>= λ fields. check_request fields
