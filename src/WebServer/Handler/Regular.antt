-- ===== src/WebServer/Handler/Regular.antt =====
-- The whole answer of WebServer/src/webServer.cpp to a request for a regular file.
use mathlib.Core.Option
use cpp_tiny_lab.Base.{
  ℕ, ◌≤◌, ◌<◌, ◌^◌, ◌≡◌, refl, ap, ◌∙◌, true, ◌>>=◌, Option, some, List, [], ◌∷◌, ◌++◌, map, length,
  All, append_assoc, append-nil, arith, ==_iff, if◌then◌else◌, ◌==◌,
}
use cpp_tiny_lab.Base.Bytes.{Bytes, codes, IsText}
use cpp_tiny_lab.Base.Decimal.{decimal}
use cpp_tiny_lab.WebServer.Decode.Reference.{decode}
use cpp_tiny_lab.WebServer.Mime.{get_mime_type}
use cpp_tiny_lab.WebServer.Response.{max_buffer_nums, crlf, to_int, send_header}
use cpp_tiny_lab.WebServer.Response.Files.{send_file-short}
use cpp_tiny_lab.WebServer.Request.{Request}
use cpp_tiny_lab.WebServer.Request.RoundTrip.{IsPathByte, get_line, parse_request-get}
use cpp_tiny_lab.WebServer.Connections.{Hash, Effect, send}
use cpp_tiny_lab.WebServer.Handler.{Files, received, send_named, serve_path, answer, http_request}

-- The bytes that go to a connection.
abbrev pub sent_bytes : ℕ → List Effect → Bytes
sent_bytes fd [] = []
sent_bytes fd (send k bytes ∷ es) =
    let rest = sent_bytes fd es in if k == fd then bytes ++ rest else rest
sent_bytes fd (e ∷ es) = sent_bytes fd es

-- A response with a body in HTTP: the status, the type, the number of bytes of the body, an empty
-- line, and the body.
abbrev pub response : Bytes → Bytes → Bytes
response file_type body =
    codes "HTTP/1.1 200 OK"
    ++ (crlf
        ++ (codes "Content-Type:"
            ++ (file_type
                ++ (crlf
                    ++ (codes "Content-Length:"
                        ++ (decimal (length body) ++ (crlf ++ (crlf ++ body))))))))

to_int-small : (n : ℕ) → n < 2 ^ 31 → to_int n ≡ some n
to_int-small n h = ground arith

max_buffer_nums-lt : max_buffer_nums < 2 ^ 31
unfolding max_buffer_nums
max_buffer_nums-lt = omega arith

module _ (files : Files) (cfd : ℕ) (path : Bytes) (c : ℕ) (cs before after : Bytes)
    (opens : files.open_file path ≡ some (c ∷ cs)) (held : files.stack path ≡ before ++ 0 ∷ after)
    (short : length (c ∷ cs) < max_buffer_nums) (behind : length (c ∷ cs) ≤ length before) where
  send_named-short : send_named files cfd path ≡ some (send cfd (c ∷ cs) ∷ [])
  unfolding send_named
  send_named-short =
      rw (opens, send_named)
        (rw held (
          ap (Option.map (map (send cfd)))
            (send_file-short max_buffer_nums c cs before after short behind)))

  abbrev header_text : Bytes
  header_text = send_header (codes "200") (codes "OK") (get_mime_type path) (length (c ∷ cs))

  serve_path-short :
      (h : Hash)
      → serve_path files cfd h path (some (record { st_size = length (c ∷ cs); is_regular = true }))
        ≡ some (h, send cfd header_text ∷ send cfd (c ∷ cs) ∷ [])
  unfolding serve_path
  serve_path-short h = rw (send_named-short) refl

  header_text-response :
      sent_bytes cfd (send cfd header_text ∷ send cfd (c ∷ cs) ∷ [])
      ≡ response (get_mime_type path) (c ∷ cs)
  unfolding send_header
  header_text-response =
      rw (to_int-small (length (c ∷ cs)) (omega (arith, short, max_buffer_nums-lt)))
        (rw ((==_iff cfd cfd).1 refl) (simp (append_assoc, append-nil)))

-- Where the array of `sendFile` at first holds a zero byte that is not among its first n bytes: a
-- request `GET /p HTTP/1.1`, with any lines behind it, that fits into the buffer and has no zero
-- byte, for a regular file of n bytes, 1 to 4095, that can be opened, is answered without undefined
-- behaviour, and leaves the table as it was; and all that is sent on the connection is one response
-- of HTTP with status 200, the type of the name that `p` decodes to, the number n, and the file.
-- Here `p` has 1 to 254 bytes, none of them a blank or the end of a line, and decodes to a text.
pub http_request-response :
    (files : Files) (cfd : ℕ) (h : Hash) (p rest : Bytes) (c : ℕ) (cs before after : Bytes)
    → All IsPathByte p
    → 0 < length p
    → length p ≤ 254
    → IsText (decode p)
    → IsText rest
    → length (get_line p ++ 13 ∷ rest) < max_buffer_nums
    → files.stat (decode p) ≡ some (record { st_size = length (c ∷ cs); is_regular = true })
    → files.open_file (decode p) ≡ some (c ∷ cs)
    → files.stack (decode p) ≡ before ++ 0 ∷ after
    → length (c ∷ cs) < max_buffer_nums
    → length (c ∷ cs) ≤ length before
    → (es : List Effect) × (http_request files cfd h (received (get_line p ++ 13 ∷ rest))
        ≡ some (h, es))
      × (sent_bytes cfd es ≡ response (get_mime_type (decode p)) (c ∷ cs))
unfolding http_request
http_request-response files cfd h p rest c cs before after bytes nonempty fits text lines room st
      opens held short behind =
    (
      _,
      ap (λ (o : Option Request). o >>= answer files cfd h)
            (parse_request-get max_buffer_nums p rest bytes nonempty fits text lines room)
          ∙ ap (serve_path files cfd h (decode p)) st
          ∙ serve_path-short files cfd (decode p) c cs before after opens held short behind h,
      header_text-response files cfd (decode p) c cs before after opens held short behind,
    )
