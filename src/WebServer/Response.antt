-- ===== src/WebServer/Response.antt =====
-- `sendHeader`, `sendFile` and the directory listing of WebServer/src/webServer.cpp.
pub mod Files
pub mod Listing
use mathlib.Core.Option
use cpp_tiny_lab.Base.{
  ℕ, zero, suc, ◌+◌, ◌%◌, ◌^◌, ◌<◌, Bool, true, false, ◌&&◌, Option, none, some, List, [], ◌∷◌,
  ◌++◌, if◌then◌else◌, ltb, length, take, drop, replicate, reverse,
}
use cpp_tiny_lab.Base.Bytes.{Bytes, codes, c_string}
use cpp_tiny_lab.Base.Decimal.{decimal}

-- `maxBufferNums`.
unfoldable pub max_buffer_nums : ℕ
max_buffer_nums = 4096

abbrev pub crlf : Bytes
crlf = 13 ∷ 10 ∷ []

-- The conversion of an `off_t` to the `int` parameter; `none` where the result is negative.
abbrev pub to_int : ℕ → Option ℕ
to_int size = if ltb (size % 2 ^ 32) (2 ^ 31) then some (size % 2 ^ 32) else none

abbrev pub length_line : Option ℕ → Bytes
length_line none = []
length_line (some zero) = []
length_line (some (suc n)) = codes "Content-Length:" ++ decimal (suc n) ++ crlf

-- The text that `sendHeader` sends, `size` being the `st_size` of the call.
unfoldable pub send_header : Bytes → Bytes → Bytes → ℕ → Bytes
send_header code msg file_type size =
    codes "HTTP/1.1 "
    ++ (code
        ++ (32 ∷ msg
            ++ (crlf
                ++ (codes "Content-Type:"
                    ++ (file_type ++ (crlf ++ (length_line (to_int size) ++ crlf)))))))

-- `read(fd, buf, sizeof(buf))` on a regular file gives the next bytes, up to the size of the
-- buffer. `memset(buf, '\0', strlen(buf))` is undefined where the buffer holds no NUL: `none`.
send_file_loop : ℕ → ℕ → Bytes → Bytes → Option (List Bytes)
send_file_loop zero n contents buf = none
send_file_loop (suc fuel) n contents buf = elim (c_string buf) [
  | none ↦ none
  | some text ↦ elim (take n contents) [
    | [] ↦ some []
    | c ∷ cs ↦
        Option.map (λ sends. (c ∷ cs) ∷ sends)
          (send_file_loop fuel n (drop n contents) (
            (c ∷ cs)
            ++ drop (length (c ∷ cs)) (replicate (length text) 0 ++ drop (length text) buf)))
  ]
]

-- `sendFile` on a file that can be opened: the sends, in order. Each round but the last takes a
-- byte at least, so the length of the file is fuel enough. `buf` is what the stack holds.
unfoldable pub send_file : ℕ → Bytes → Bytes → Option (List Bytes)
unfolding send_file_loop
send_file n contents buf = send_file_loop (suc (length contents)) n contents buf

-- An entry of `scandir`.
pub record Dirent : Type 0 where
  pub d_name : Bytes
  pub is_dir : Bool

pub row : Dirent → Bytes
row e =
    codes "<li><a href="
    ++ (e.d_name
        ++ ((if e.is_dir then codes "/> " else codes "> ") ++ (e.d_name ++ codes " </a></li>")))

-- The inner loop: up to `k` rows are appended to the buffer of `n` bytes; `none` where one runs over.
fill : ℕ → ℕ → List Dirent → Bytes → Option (Bytes × List Dirent)
fill n zero es buf = some (buf, es)
fill n (suc k) [] buf = some (buf, [])
fill n (suc k) (e ∷ es) buf =
    if ltb (length (buf ++ row e)) n then fill n k es (buf ++ row e) else none

-- The outer loop, over the entries from the last to the first: what is sent.
list_loop : ℕ → ℕ → List Dirent → Option (List Bytes)
unfolding fill
list_loop zero n es = none
list_loop (suc fuel) n [] = some []
list_loop (suc fuel) n (e ∷ es) = elim (fill n 10 (e ∷ es) []) [
  | none ↦ none
  | some (buf, rest) ↦ Option.map (λ sends. buf ∷ sends) (list_loop fuel n rest)
]

-- `namelist` is in the order of `alphasort`.
pub send_listing : ℕ → List Dirent → Option (List Bytes)
unfolding list_loop row
send_listing n namelist = list_loop (suc (length namelist)) n (reverse namelist)
