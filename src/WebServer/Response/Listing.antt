-- ===== src/WebServer/Response/Listing.antt =====
-- The directory listing of WebServer/src/webServer.cpp: what is sent, and when the buffer is enough.
use mathlib.Core.List.{flatten, reverse-cons}
use cpp_tiny_lab.Base.{
  ℕ, zero, suc, ◌+◌, ◌*◌, ◌≤◌, ◌<◌, ◌≡◌, refl, ap, ◌∙◌, none, some, List, [], ◌∷◌, ◌++◌, map,
  reverse, arith, inl, inr, Bool-cases, if◌then◌else◌, ltb, lt→ltb, length, length-append,
  append_assoc, All, All-append, ltb→lt,
}
use cpp_tiny_lab.Base.Bytes.{Bytes, codes}
use cpp_tiny_lab.WebServer.Response.{Dirent, row, fill, list_loop, send_listing}

abbrev rows : List Dirent → Bytes
rows es = flatten (map row es)

-- What one filling of the buffer appends, and what it leaves.
record Filled (k : ℕ) (es : List Dirent) (buf : Bytes) (r : Bytes × List Dirent) : Type 0 where
  bytes : r.0 ++ rows r.1 ≡ buf ++ rows es
  fewer : length r.1 ≤ length es
  taken : 0 < k → 0 < length es → length r.1 < length es

length-row :
    (e : Dirent)
    → (length (row e) ≤ 2 * length e.d_name + 25) × (2 * length e.d_name + 24 ≤ length (row e))
unfolding row
length-row e =
    let mid = if e.is_dir then codes "/> " else codes "> " in
    ground (
      arith,
      length-append (codes "<li><a href=") (e.d_name ++ (mid ++ (e.d_name ++ codes " </a></li>"))),
      length-append e.d_name (mid ++ (e.d_name ++ codes " </a></li>")),
      length-append mid (e.d_name ++ codes " </a></li>"),
      length-append e.d_name (codes " </a></li>"),
    )

fill-Filled :
    (n k b : ℕ) (es : List Dirent) (buf : Bytes)
    → All (λ e. length e.d_name ≤ b) es
    → length buf + k * (2 * b + 25) < n
    → (r : Bytes × List Dirent) × (fill n k es buf ≡ some r)
      × Filled k es buf r
      × All (λ e. length e.d_name ≤ b) r.1
unfolding fill flatten
fill-Filled n zero b es buf h s = (
  (buf, es),
  refl,
  record { bytes = refl; fewer = omega arith; taken = λ p q. absurd (omega arith) },
  h,
)
fill-Filled n (suc k) b [] buf h s = (
  (buf, []),
  refl,
  record { bytes = refl; fewer = omega arith; taken = λ p q. absurd (omega arith) },
  h,
)
fill-Filled n (suc k) b (e ∷ es) buf h s =
    let l = length-append buf (row e) in
    let fits : length (buf ++ row e) + k * (2 * b + 25) < n =
      grind (arith, (length-row e).0, h.0, l) in
    let (r, run, f, a) = fill-Filled n k b es (buf ++ row e) h.1 fits in
    (
      r,
      rw (lt→ltb (length (buf ++ row e)) n (omega (arith, fits))) run,
      record {
        bytes = f.bytes ∙ append_assoc buf (row e) (rows es);
        fewer = omega (arith, f.fewer);
        taken = λ p q. omega (arith, f.fewer);
      },
      a,
    )

list_loop-rows :
    (fuel n b : ℕ) (es : List Dirent)
    → length es < fuel
    → All (λ e. length e.d_name ≤ b) es
    → 10 * (2 * b + 25) < n
    → (sends : List Bytes) × (list_loop fuel n es ≡ some sends) × (flatten sends ≡ rows es)
unfolding list_loop flatten
list_loop-rows zero n b es h a s = absurd (omega arith)
list_loop-rows (suc fuel) n b [] h a s = ([], refl, refl)
list_loop-rows (suc fuel) n b (e ∷ es) h a s =
    let (r, run, f, a') = fill-Filled n 10 b (e ∷ es) [] a (omega arith) in
    let (sends, runs, all) =
      list_loop-rows fuel n b r.1 (omega (arith, f.taken (omega arith) (omega arith))) a' s in
    (r.0 ∷ sends, rw (run, list_loop) (rw (runs) refl), ap (◌++◌ r.0) all ∙ f.bytes)

fill-overrun :
    (n k b : ℕ) (es : List Dirent) (buf : Bytes)
    → All (λ e. b ≤ length e.d_name) es
    → k ≤ length es
    → length buf < n
    → n ≤ length buf + k * (2 * b + 24)
    → fill n k es buf ≡ none
unfolding fill
fill-overrun n zero b es buf h l lt s = absurd (omega arith)
fill-overrun n (suc k) b [] buf h l lt s = absurd (omega arith)
fill-overrun n (suc k) b (e ∷ es) buf h l lt s = elim (Bool-cases (ltb (length (buf ++ row e)) n)) [
  | inr over ↦ rw over refl
  | inl fits ↦ rw fits (
      fill-overrun n k b es (buf ++ row e) h.1 (omega arith) (ltb→lt _ n fits)
        (grind (arith, (length-row e).1, h.0, length-append buf (row e))))
]

All-reverse : {A : Type 0} (P : A → Type 0) (xs : List A) → All P xs → All P (reverse xs)
All-reverse P [] h = tt
All-reverse P (x ∷ xs) h =
    rw (reverse-cons x xs) (All-append P (reverse xs) (x ∷ []) (All-reverse P xs h.1) (h.0, tt))

length-reverse : {A : Type 0} (xs : List A) → length (reverse xs) ≡ length xs
length-reverse [] = refl
length-reverse (x ∷ xs) =
    omega
      (arith, ap length (reverse-cons x xs), length-append (reverse xs) (x ∷ []), length-reverse xs)

-- If no name is longer than `b` bytes and ten rows of such names fit into the buffer of `n` bytes
-- (`b = 192` for 4096), the whole listing is sent: the rows of all entries, the last entry first.
pub send_listing-rows :
    (n b : ℕ) (namelist : List Dirent)
    → All (λ e. length e.d_name ≤ b) namelist
    → 10 * (2 * b + 25) < n
    → (sends : List Bytes) × (send_listing n namelist ≡ some sends)
      × (flatten sends ≡ flatten (map row (reverse namelist)))
unfolding send_listing
send_listing-rows n b namelist h s =
    list_loop-rows (suc (length namelist)) n b (reverse namelist)
      (omega (arith, length-reverse namelist)) (All-reverse _ namelist h) s

list_loop-overrun :
    (fuel n b : ℕ) (es : List Dirent)
    → All (λ e. b ≤ length e.d_name) es
    → 10 ≤ length es
    → 0 < n
    → n ≤ 10 * (2 * b + 24)
    → list_loop (suc fuel) n es ≡ none
unfolding list_loop
list_loop-overrun fuel n b [] h l z s = absurd (omega arith)
list_loop-overrun fuel n b (e ∷ es) h l z s =
    rw (fill-overrun n 10 b (e ∷ es) [] h l z (omega arith), list_loop) refl

-- Ten or more entries whose names are all so long that ten rows fill the buffer (193 bytes for
-- 4096) overrun it.
pub send_listing-overrun :
    (n b : ℕ) (namelist : List Dirent)
    → All (λ e. b ≤ length e.d_name) namelist
    → 10 ≤ length namelist
    → 0 < n
    → n ≤ 10 * (2 * b + 24)
    → send_listing n namelist ≡ none
unfolding send_listing
send_listing-overrun n b namelist h l z s =
    list_loop-overrun (length namelist) n b (reverse namelist) (All-reverse _ namelist h)
      (omega (arith, length-reverse namelist)) z s
