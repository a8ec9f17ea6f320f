-- ===== src/WebServer/Decode/InPlace.antt =====
-- `strdecode` of WebServer/src/webServer.cpp, in place, against a decoder of byte strings.
use cpp_tiny_lab.Base.{
  ℕ, zero, suc, ◌+◌, ◌-◌, ◌<◌, ◌≡◌, ◌≢◌, refl, sym, ap, ◌∙◌, some, [], ◌∷◌, ◌++◌, arith, length,
  length-append, get_elem?, replicate, get_elem?-append_right, set-append_right, append_assoc,
  append-nil,
}
use cpp_tiny_lab.Base.Bytes.{Bytes, IsText, write}
use cpp_tiny_lab.WebServer.Decode.{unescape, decode_loop, clear_loop, strdecode}
use cpp_tiny_lab.WebServer.Decode.Reference.{
  decode, Round, plain, escaped, Round-cases, unescape-append,
}

loop_step :
    (fuel : ℕ) (buf buf' : Bytes) (to from c x k : ℕ)
    → get_elem? buf from ≡ some c
    → c ≢ 0
    → unescape buf from ≡ some (x, k)
    → write buf to x ≡ some buf'
    → decode_loop (suc fuel) buf to from ≡ decode_loop fuel buf' (to + 1) (from + k)
unfolding decode_loop
loop_step fuel buf buf' to from c x k e n u w = ground arith

write-append :
    (w : Bytes) (y : ℕ) (v : Bytes) (x : ℕ) → write (w ++ y ∷ v) (length w) x ≡ some (w ++ x ∷ v)
write-append w y v x =
    let e : length w ≡ length w + 0 = omega arith in
    let at : get_elem? (w ++ y ∷ v) (length w) ≡ some y =
      ap (get_elem? (w ++ y ∷ v)) e ∙ get_elem?-append_right w (y ∷ v) 0 in
    rw (at, write) (ap some (set-append_right w y v x))

-- A stored byte ends the part that is written; the gap takes up the bytes that were read.
record Stored (w g k tail : Bytes) (x : ℕ) : Type 0 where
  gap : Bytes
  stores : write (w ++ (g ++ (k ++ tail))) (length w) x ≡ some ((w ++ x ∷ []) ++ (gap ++ tail))
  size : length gap + 1 ≡ length g + length k

store_byte : (w g : Bytes) (c : ℕ) (k tail : Bytes) (x : ℕ) → Stored w g (c ∷ k) tail x
store_byte w [] c k tail x = record {
  gap = k;
  stores = write-append w c (k ++ tail) x ∙ ap some (sym (append_assoc w (x ∷ []) (k ++ tail)));
  size = omega arith;
}
store_byte w (y ∷ g) c k tail x = record {
  gap = g ++ c ∷ k;
  stores =
      write-append w y (g ++ ((c ∷ k) ++ tail)) x
      ∙ ap some (
          sym (
            append_assoc w (x ∷ []) ((g ++ c ∷ k) ++ tail)
            ∙ ap (λ t. w ++ x ∷ t) (append_assoc g (c ∷ k) tail)));
  size = omega (arith, length-append g (c ∷ k));
}

-- The loop has decoded `s`, from behind the gap `g` to the end of `w`.
record Decoded (fuel : ℕ) (w g s rest : Bytes) : Type 0 where
  gap : Bytes
  runs :
      decode_loop fuel (w ++ (g ++ (s ++ 0 ∷ rest))) (length w) (length w + length g)
      ≡ some (
        (w ++ decode s) ++ (gap ++ 0 ∷ rest),
        length (w ++ decode s),
        length (w ++ decode s) + length gap,
      )
  size : length (decode s) + length gap ≡ length g + length s

unescape-at : (w g z : Bytes) → unescape (w ++ (g ++ z)) (length w + length g) ≡ unescape z 0
unescape-at w g z = rw (← append_assoc w g z, ← length-append w g) (unescape-append (w ++ g) z)

get_elem?-at :
    (w g z : Bytes) (c : ℕ) → get_elem? (w ++ (g ++ (c ∷ z))) (length w + length g) ≡ some c
get_elem?-at w g z c =
    let e : length (w ++ g) ≡ length (w ++ g) + 0 = omega arith in
    rw (← append_assoc w g (c ∷ z), ← length-append w g)
      (ap (get_elem? ((w ++ g) ++ c ∷ z)) e ∙ get_elem?-append_right (w ++ g) (c ∷ z) 0)

module _ (fuel : ℕ) (w g : Bytes) (c : ℕ) (k s rest : Bytes) (x : ℕ) where
  one_round :
      c ≢ 0
      → unescape (c ∷ (k ++ (s ++ 0 ∷ rest))) 0 ≡ some (x, length (c ∷ k))
      → decode (c ∷ (k ++ s)) ≡ x ∷ decode s
      → ((g' : Bytes) → Decoded fuel (w ++ x ∷ []) g' s rest)
      → Decoded (suc fuel) w g (c ∷ (k ++ s)) rest
  one_round nz u d ih = record { gap = rec.gap; runs = runs; size = size }
    where
      st : Stored w g (c ∷ k) (s ++ 0 ∷ rest) x
      st = store_byte w g c k (s ++ 0 ∷ rest) x

      rec : Decoded fuel (w ++ x ∷ []) st.gap s rest
      rec = ih st.gap

      moved : (w ++ x ∷ []) ++ decode s ≡ w ++ decode (c ∷ (k ++ s))
      moved = append_assoc w (x ∷ []) (decode s) ∙ ap (◌++◌ w) (sym d)

      first_round :
          decode_loop
            (suc fuel)
            (w ++ (g ++ (c ∷ (k ++ (s ++ 0 ∷ rest)))))
            (length w)
            (length w + length g)
          ≡ decode_loop fuel
              ((w ++ x ∷ []) ++ (st.gap ++ (s ++ 0 ∷ rest)))
              (length w + 1)
              (length w + length g + length (c ∷ k))
      first_round =
          loop_step fuel _ _ (length w) (length w + length g) c x (length (c ∷ k))
            (get_elem?-at w g _ c) nz (unescape-at w g _ ∙ u) st.stores

      to : length w + 1 ≡ length (w ++ x ∷ [])
      to = omega (arith, length-append w (x ∷ []))

      from : length w + length g + length (c ∷ k) ≡ length (w ++ x ∷ []) + length st.gap
      from = omega (arith, length-append w (x ∷ []), st.size)

      runs :
          decode_loop
            (suc fuel)
            (w ++ (g ++ ((c ∷ (k ++ s)) ++ 0 ∷ rest)))
            (length w)
            (length w + length g)
          ≡ some (
            (w ++ decode (c ∷ (k ++ s))) ++ (rec.gap ++ 0 ∷ rest),
            length (w ++ decode (c ∷ (k ++ s))),
            length (w ++ decode (c ∷ (k ++ s))) + length rec.gap,
          )
      runs = rw (append_assoc k s (0 ∷ rest), first_round, to, from, rec.runs, moved)

      size : length (decode (c ∷ (k ++ s))) + length rec.gap ≡ length g + length (c ∷ (k ++ s))
      size = omega (arith, ap length d, rec.size, st.size, length-append k s)

module _ (fuel : ℕ) (rest : Bytes) where
  -- What the induction knows of the bytes behind those that one round takes.
  abbrev Shorter : Bytes → Type 0
  Shorter s =
      (s' : Bytes) → length s' < length s → IsText s' → (w g : Bytes) → Decoded fuel w g s' rest

  Round-Decoded :
      {s : Bytes}
      → Round rest s
      → IsText s
      → Shorter s
      → (w g : Bytes) → Decoded (suc fuel) w g s rest
  Round-Decoded (plain c s u d) t ih w g =
      one_round fuel w g c [] s rest c t.0 u d (ih s (omega arith) t.1 (w ++ c ∷ []))
  Round-Decoded (escaped a b c x s u d) t ih w g =
      one_round fuel w g a (b ∷ c ∷ []) s rest x t.0 u d (ih s (omega arith) t.1.1.1 (w ++ x ∷ []))

decode_loop-Decoded :
    (fuel : ℕ) (s : Bytes)
    → length s < fuel
    → IsText s
    → (w g rest : Bytes) → Decoded fuel w g s rest
unfolding decode
decode_loop-Decoded zero s h t w g rest = absurd (omega arith)
decode_loop-Decoded (suc fuel) [] h t w g rest = record {
  gap = g;
  runs = unfold decode_loop in rw (get_elem?-at w g rest 0, append-nil w) refl;
  size = omega arith;
}
decode_loop-Decoded (suc fuel) (c ∷ s) h t w g rest =
    Round-Decoded fuel rest (Round-cases c s rest) t
      (λ s' lt t'. λ w' g'. decode_loop-Decoded fuel s' (omega arith) t' w' g' rest) w g

clear_step :
    (fuel : ℕ) (buf buf' : Bytes) (to from : ℕ)
    → to < from
    → write buf to 0 ≡ some buf'
    → clear_loop (suc fuel) buf to from ≡ clear_loop fuel buf' (to + 1) from
unfolding clear_loop
clear_step fuel buf buf' to from h w = ground arith

-- The last loop clears what lies between the end of the decoded text and the end of the old one.
clear_loop-zeros :
    (g w rest : Bytes) (fuel : ℕ)
    → length g < fuel
    → clear_loop fuel (w ++ (g ++ 0 ∷ rest)) (length w) (length w + length g)
      ≡ some (w ++ (replicate (length g) 0 ++ 0 ∷ rest))
unfolding clear_loop
clear_loop-zeros g w rest zero h = absurd (omega arith)
clear_loop-zeros [] w rest (suc fuel) h = ground arith
clear_loop-zeros (y ∷ g) w rest (suc fuel) h =
    let w' = w ++ 0 ∷ [] in
    let to : length w + 1 ≡ length w' = omega (arith, length-append w (0 ∷ [])) in
    let from : length w + suc (length g) ≡ length w' + length g = omega (arith, to) in
    clear_step fuel _ _ (length w) (length w + suc (length g)) (omega arith)
      (write-append w y (g ++ 0 ∷ rest) 0 ∙ ap some (sym (append_assoc w (0 ∷ []) (g ++ 0 ∷ rest))))
    ∙ rw (to, from)
        (clear_loop-zeros g w' rest fuel (omega arith)
          ∙ ap some (append_assoc w (0 ∷ []) (replicate (length g) 0 ++ 0 ∷ rest)))

clear_front :
    (g w rest : Bytes)
    → (g' : Bytes) × (length g' ≡ length g)
      × (write (w ++ (g ++ 0 ∷ rest)) (length w) 0 ≡ some (w ++ (g' ++ 0 ∷ rest)))
clear_front [] w rest = ([], refl, write-append w 0 rest 0)
clear_front (y ∷ g) w rest = (0 ∷ g, refl, write-append w y (g ++ 0 ∷ rest) 0)

-- `strdecode` on an array that begins with the text `s` and its NUL stays within the array, and
-- leaves the decoded text there, with zeros up to the old NUL and the bytes behind it as they were.
pub strdecode-decode :
    (s rest : Bytes)
    → IsText s
    → strdecode (s ++ 0 ∷ rest)
      ≡ some (decode s ++ (replicate (length s - length (decode s)) 0 ++ 0 ∷ rest))
unfolding strdecode
strdecode-decode s rest t =
    let d =
      decode_loop-Decoded (suc (length (s ++ 0 ∷ rest))) s
        (omega (arith, length-append s (0 ∷ rest))) t [] [] rest in
    let (g', size, e) = clear_front d.gap (decode s) rest in
    let n : length s - length (decode s) ≡ length g' = omega (arith, size, d.size) in
    rw (d.runs, e, n, ← size)
      (clear_loop-zeros g' (decode s) rest (suc (length (decode s) + length g')) (omega arith))
