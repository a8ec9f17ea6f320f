-- ===== src/WebServer/Tests.antt =====
-- Runs of the functions of WebServer/, and the theorems about them at concrete inputs.
use mathlib.Core.List.{flatten}
use cpp_tiny_lab.Base.{
  ℕ, ◌<◌, ◌≡◌, refl, true, false, none, some, List, [], ◌∷◌, ◌++◌, arith, replicate, map, reverse,
}
use cpp_tiny_lab.Base.Bytes.{Bytes, codes, c_string}
use cpp_tiny_lab.WebServer.Decode.{strdecode}
use cpp_tiny_lab.WebServer.Decode.InPlace.{strdecode-decode}
use cpp_tiny_lab.WebServer.Decode.Reference.{decode}
use cpp_tiny_lab.WebServer.Decode.Escapes.{percent, decode-percent}
use cpp_tiny_lab.WebServer.Mime.{get_mime_type}
use cpp_tiny_lab.WebServer.Response.{max_buffer_nums, send_file, Dirent, row, send_listing}
use cpp_tiny_lab.WebServer.Response.Files.{Pieces, send_file-Pieces, send_file-overrun}
use cpp_tiny_lab.WebServer.Response.Listing.{send_listing-rows, send_listing-overrun}
use cpp_tiny_lab.WebServer.Request.{parse_request}
use cpp_tiny_lab.WebServer.Request.RoundTrip.{parse_request-overrun}
use cpp_tiny_lab.WebServer.Connections.{Effect, Hash, set_time, last_active, hang_up, check_connect}
use cpp_tiny_lab.WebServer.Connections.Sweep.{closes, check_connect-idle}
use cpp_tiny_lab.WebServer.Handler.{Files, failed, received, http_request}
use cpp_tiny_lab.WebServer.Handler.Regular.{sent_bytes, response, http_request-response}
use cpp_tiny_lab.WebServer.Handler.Served.{Served, http_request-Served}

strdecode-decode_example :
    strdecode (codes "%41%zb%" ++ 0 ∷ 7 ∷ []) ≡ some (codes "A%zb%" ++ (0 ∷ 0 ∷ 0 ∷ 7 ∷ []))
unfolding decode
strdecode-decode_example = strdecode-decode (codes "%41%zb%") (7 ∷ []) (ground arith)

decode-percent_example : decode (percent (0xe8 ∷ 0x8b ∷ 0xa6 ∷ [])) ≡ 0xe8 ∷ 0x8b ∷ 0xa6 ∷ []
decode-percent_example = decode-percent (0xe8 ∷ 0x8b ∷ 0xa6 ∷ []) (omega arith)

two_sends :
    send_file 4 (1 ∷ 0 ∷ 3 ∷ 4 ∷ 5 ∷ []) (0 ∷ 0 ∷ 0 ∷ 0 ∷ [])
    ≡ some ((1 ∷ 0 ∷ 3 ∷ 4 ∷ []) ∷ (5 ∷ []) ∷ [])
unfolding send_file c_string
two_sends = refl

send_file-Pieces_example : Pieces 4 (1 ∷ 0 ∷ 3 ∷ 4 ∷ 5 ∷ []) ((1 ∷ 0 ∷ 3 ∷ 4 ∷ []) ∷ (5 ∷ []) ∷ [])
send_file-Pieces_example =
    send_file-Pieces 4 (1 ∷ 0 ∷ 3 ∷ 4 ∷ 5 ∷ []) (0 ∷ 0 ∷ 0 ∷ 0 ∷ [])
      ((1 ∷ 0 ∷ 3 ∷ 4 ∷ []) ∷ (5 ∷ []) ∷ []) (omega arith) two_sends

send_file-overrun_example : send_file 2 (7 ∷ 8 ∷ 9 ∷ []) (0 ∷ 0 ∷ []) ≡ none
send_file-overrun_example = send_file-overrun 7 (8 ∷ []) (9 ∷ []) (ground arith)

abbrev entries : List Dirent
entries =
    record { d_name = codes "aa"; is_dir = true }
    ∷ record { d_name = codes "b"; is_dir = false }
    ∷ []

send_listing-rows_example :
    (sends : List Bytes) × (send_listing 4096 entries ≡ some sends)
    × (flatten sends ≡ flatten (map row (reverse entries)))
send_listing-rows_example = send_listing-rows 4096 192 entries (omega arith) (omega arith)

abbrev many : List Dirent
many = replicate 10 (record { d_name = codes "name"; is_dir = false })

send_listing-overrun_example : send_listing 320 many ≡ none
send_listing-overrun_example =
    send_listing-overrun 320 4 many (omega arith) (omega arith) (omega arith) (omega arith)

abbrev one_file : Files
one_file = record {
  stat = λ path. some (record { st_size = 2; is_regular = true });
  open_file = λ path. some (codes "hi");
  scandir = λ path. none;
  stack = λ path. codes "old" ++ 0 ∷ replicate 4092 7;
}

lt-max_buffer_nums : {n : ℕ} → n < 4096 → n < max_buffer_nums
unfolding max_buffer_nums
lt-max_buffer_nums h = h

http_request-response_example :
    (es : List Effect) × (http_request one_file 5 []
        (received (codes "GET /../a%2ehtml HTTP/1.1" ++ 13 ∷ 10 ∷ []))
      ≡ some ([], es))
    × (sent_bytes 5 es ≡ response (get_mime_type (codes "../a.html")) (codes "hi"))
unfolding decode
http_request-response_example =
    http_request-response one_file 5 [] (codes "../a%2ehtml") (10 ∷ []) b'h' (codes "i")
      (codes "old") (replicate 4092 7) (ground arith) (omega arith) (omega arith) (ground arith)
      (ground arith) (lt-max_buffer_nums (omega arith)) refl refl refl
      (lt-max_buffer_nums (omega arith)) (omega arith)

parse_request-overrun_example : parse_request 64 (codes "PROPPATCHPROPPATCH" ++ 13 ∷ []) ≡ none
parse_request-overrun_example =
    parse_request-overrun 64 (codes "PROPPATCHPROPPATCH") [] (ground arith) (omega arith) tt
      (omega arith)

abbrev table : Hash
table =
    (5, record { last_active_time = some 10; address = 1 })
    ∷ (6, record { last_active_time = some 90; address = 2 })
    ∷ (7, record { last_active_time = none; address = 3 })
    ∷ []

check_connect-idle_example :
    (closes 5 (check_connect (λ fd. 100) table).1 ≡ 1)
    × (last_active 5 (check_connect (λ fd. 100) table).0 ≡ none)
check_connect-idle_example = check_connect-idle (λ fd. 100) 5 table (refl, (refl, (refl, tt)))

abbrev no_files : Files
no_files = record { stat = λ p. none; open_file = λ p. none; scandir = λ p. none; stack = λ p. [] }

refused_request : http_request no_files 5 table failed ≡ some (set_time 5 none table, hang_up 5)
unfolding http_request
refused_request = refl

http_request-Served_example : Served 5 table (set_time 5 none table, hang_up 5)
http_request-Served_example =
    http_request-Served no_files 5 table failed (set_time 5 none table, hang_up 5) refused_request
