-- ===== src/WebServer/Decode.antt =====
-- `hextod` and `strdecode` of WebServer/src/webServer.cpp: %-escapes are decoded in place.
pub mod Reference
pub mod InPlace
pub mod Escapes
use cpp_tiny_lab.Base.{
  ◌>>=◌, ℕ, zero, suc, ◌+◌, ◌-◌, ◌*◌, ◌%◌, ◌≡◌, Bool, true, false, ◌&&◌, Option, none, some, List,
  [], ◌∷◌, if◌then◌else◌, ◌==◌, length, get_elem?,
}
use cpp_tiny_lab.Base.Bytes.{Bytes, write, within, is_xdigit}

-- `none` where the source returns `num` without having set it.
unfoldable pub hextod : ℕ → Option ℕ
hextod c =
    if within b'0' b'9' c
    then some (c - b'0')
    else if within b'a' b'f' c
    then some (c - b'a' + 10)
    else if within b'A' b'F' c
    then some (c - b'A' + 10)
    else none

-- The byte that one round of the loop stores, and how far it moves `from`. An access out of the
-- array is `none`; `from[1]` and `from[2]` are read only if the tests before them hold.
pub unescape : Bytes → ℕ → Option (ℕ × ℕ)
unfolding hextod
unescape buf from = do
  c ← get_elem? buf from
  let plain = some (c, 1)
  if c == b'%'
      then (do
        h ← get_elem? buf (from + 1)
        if is_xdigit h
            then (do
              l ← get_elem? buf (from + 2)
              if is_xdigit l
                  then (do a ← hextod h; b ← hextod l; some ((a * 16 + b) % 256, 3))
                  else plain)
            else plain)
      else plain

-- `for (; *from != '\0';)`. Each round moves `from`, so the length of the array is fuel enough.
decode_loop : ℕ → Bytes → ℕ → ℕ → Option (Bytes × ℕ × ℕ)
unfolding unescape
decode_loop zero buf to from = none
decode_loop (suc fuel) buf to from = do
  c ← get_elem? buf from
  elim (c == 0) [
    | true ↦ some (buf, to, from)
    | false ↦ unescape buf from >>= λ r.
        write buf to r.0 >>= λ buf'. decode_loop fuel buf' (to + 1) (from + r.1)
  ]

-- `*to = '\0'; for (; to != from; to++) *to = '\0';`
clear_loop : ℕ → Bytes → ℕ → ℕ → Option Bytes
clear_loop zero buf to from = none
clear_loop (suc fuel) buf to from = elim (to == from) [
  | true ↦ some buf
  | false ↦ write buf to 0 >>= λ buf'. clear_loop fuel buf' (to + 1) from
]

-- `strdecode(buf, buf)`, as the server calls it.
pub strdecode : Bytes → Option Bytes
unfolding decode_loop clear_loop
strdecode buf = do
  r ← decode_loop (suc (length buf)) buf 0 0
  buf' ← write r.0 r.1 0
  clear_loop (suc r.2) buf' r.1 r.2
