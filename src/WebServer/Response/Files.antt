-- ===== src/WebServer/Response/Files.antt =====
-- What `sendFile` of WebServer/src/webServer.cpp sends.
use mathlib.Core.List.{flatten}
use mathlib.Core.Option
use cpp_tiny_lab.Base.{
  ℕ, zero, suc, ◌≤◌, ◌<◌, ◌≡◌, refl, sym, ap, ◌∙◌, Option, none, some, some-injective, List, [],
  ◌∷◌, ◌++◌, inl, inr, List-cases, Option-cases, arith, length, take, drop, replicate,
  take-append-drop, length-take, length-replicate, append-nil, All, ◌==◌, Bool-cases, append_assoc,
  length-append, length-drop,
}
use cpp_tiny_lab.Base.Bytes.{Bytes, IsText, c_string, c_string-text, c_string-none}
use cpp_tiny_lab.WebServer.Response.{send_file_loop, send_file}

-- What a file is sent as: pieces of at most `n` bytes, none empty, that make up the file.
pub record Pieces (n : ℕ) (contents : Bytes) (sends : List Bytes) : Type 0 where
  pub whole : flatten sends ≡ contents
  pub sized : All (λ s. (0 < length s) × (length s ≤ n)) sends

drop-nil : (n : ℕ) (c : Bytes) → 0 < n → take n c ≡ [] → c ≡ []
drop-nil zero c h e = absurd (omega arith)
drop-nil (suc n) [] h e = refl
drop-nil (suc n) (x ∷ c) h e = cc

map-some :
    {A B : Type 0} (f : A → B) (o : Option A) (b : B)
    → Option.map f o ≡ some b
    → (a : A) × (o ≡ some a) × (f a ≡ b)
map-some f none b e = cc
map-some f (some a) b e = (a, refl, some-injective _ _ e)

-- The buffer of the round after one that read `chunk`, where `text` was cleared before.
abbrev next_buf : Bytes → Bytes → Bytes → Bytes
next_buf text chunk buf =
    chunk ++ drop (length chunk) (replicate (length text) 0 ++ drop (length text) buf)

send_file_loop-end :
    (fuel n : ℕ) (contents buf text : Bytes)
    → c_string buf ≡ some text
    → take n contents ≡ []
    → send_file_loop (suc fuel) n contents buf ≡ some []
unfolding send_file_loop
send_file_loop-end fuel n contents buf text o t =
    rw (o, send_file_loop) (rw (t, send_file_loop) refl)

send_file_loop-round :
    (fuel n : ℕ) (contents buf text : Bytes) (c : ℕ) (cs : Bytes)
    → c_string buf ≡ some text
    → take n contents ≡ c ∷ cs
    → send_file_loop (suc fuel) n contents buf
      ≡ Option.map
          (λ sends. (c ∷ cs) ∷ sends)
          (send_file_loop fuel n (drop n contents) (next_buf text (c ∷ cs) buf))
unfolding send_file_loop
send_file_loop-round fuel n contents buf text c cs o t =
    rw (o, send_file_loop) (rw (t, send_file_loop) refl)

send_file_loop-fault :
    (fuel n : ℕ) (contents buf : Bytes)
    → c_string buf ≡ none
    → send_file_loop fuel n contents buf ≡ none
unfolding send_file_loop
send_file_loop-fault zero n contents buf o = refl
send_file_loop-fault (suc fuel) n contents buf o = rw (o, send_file_loop) refl

send_file_loop-out : (n : ℕ) (contents buf : Bytes) → send_file_loop zero n contents buf ≡ none
unfolding send_file_loop
send_file_loop-out n contents buf = refl

send_file_loop-Pieces :
    (fuel n : ℕ) (contents buf : Bytes) (sends : List Bytes)
    → 0 < n
    → send_file_loop fuel n contents buf ≡ some sends
    → Pieces n contents sends
unfolding flatten
send_file_loop-Pieces zero n contents buf sends h e = cc (send_file_loop-out n contents buf)
send_file_loop-Pieces (suc fuel) n contents buf sends h e = elim (Option-cases (c_string buf)) [
  | inl o ↦ cc (send_file_loop-fault (suc fuel) n contents buf o)
  | inr (text, o) ↦ elim (List-cases (take n contents)) [
    | inl t ↦
        let d : sends ≡ [] =
          some-injective _ _ (sym e ∙ send_file_loop-end fuel n contents buf text o t) in
        rw d (record { whole = sym (drop-nil n contents h t); sized = tt })
    | inr (c, cs, t) ↦
        let (rest, e', d) =
          map-some _ _ _ (sym (send_file_loop-round fuel n contents buf text c cs o t) ∙ e) in
        let p = send_file_loop-Pieces fuel n (drop n contents) _ rest h e' in
        rw (← d) (record {
          whole =
              ap (◌++◌ (c ∷ cs)) p.whole
              ∙ ap (λ k. k ++ drop n contents) (sym t)
              ∙ take-append-drop n contents;
          sized = ((omega arith, omega (arith, ap length t, length-take n contents)), p.sized);
        })
  ]
]

-- Where `sendFile` gets through, the bytes that it sends are those of the file, in order, in
-- pieces of 1 to `n` bytes, `n` being the size of the buffer.
pub send_file-Pieces :
    (n : ℕ) (contents buf : Bytes) (sends : List Bytes)
    → 0 < n
    → send_file n contents buf ≡ some sends
    → Pieces n contents sends
unfolding send_file
send_file-Pieces n contents buf sends h e =
    send_file_loop-Pieces (suc (length contents)) n contents buf sends h e

take-all : {A : Type 0} (n : ℕ) (xs : List A) → length xs ≤ n → take n xs ≡ xs
take-all zero [] h = refl
take-all zero (x ∷ xs) h = absurd (omega arith)
take-all (suc n) [] h = refl
take-all (suc n) (x ∷ xs) h = ap (◌∷◌ x) (take-all n xs (omega arith))

drop-all : {A : Type 0} (n : ℕ) (xs : List A) → length xs ≤ n → drop n xs ≡ []
drop-all zero [] h = refl
drop-all zero (x ∷ xs) h = absurd (omega arith)
drop-all (suc n) [] h = refl
drop-all (suc n) (x ∷ xs) h = drop-all n xs (omega arith)

take-append : {A : Type 0} (xs ys : List A) → take (length xs) (xs ++ ys) ≡ xs
take-append [] ys = refl
take-append (x ∷ xs) ys = ap (◌∷◌ x) (take-append xs ys)

drop-append :
    {A : Type 0} (k : ℕ) (xs ys : List A) → k ≤ length xs → drop k (xs ++ ys) ≡ drop k xs ++ ys
drop-append zero xs ys h = refl
drop-append (suc k) [] ys h = absurd (omega arith)
drop-append (suc k) (x ∷ xs) ys h = drop-append k xs ys (omega arith)

zeros-text : (n : ℕ) → 0 < n → c_string (replicate n 0) ≡ some []
zeros-text zero h = absurd (omega arith)
zeros-text (suc n) h = c_string-text [] (replicate n 0) tt

c_string-some :
    (s rest : Bytes)
    → (text : Bytes) × (c_string (s ++ 0 ∷ rest) ≡ some text) × (length text ≤ length s)
unfolding c_string
c_string-some [] rest = ([], refl, omega arith)
c_string-some (c ∷ s) rest =
    let (t, e, l) = c_string-some s rest in
    elim (Bool-cases (c == 0)) [
      | inl y ↦ ([], ground arith, omega arith)
      | inr n ↦ (c ∷ t, ground arith, omega arith)
    ]

next_buf-zero :
    (text chunk before after : Bytes)
    → length text ≤ length before
    → length chunk ≤ length before
    → next_buf text chunk (before ++ 0 ∷ after)
      ≡ (chunk ++ drop (length chunk) (replicate (length text) 0 ++ drop (length text) before))
        ++ 0 ∷ after
next_buf-zero text chunk before after t l =
    let cleared = replicate (length text) 0 ++ drop (length text) before in
    ap (λ w. chunk ++ drop (length chunk) (replicate (length text) 0 ++ w))
      (drop-append (length text) before (0 ∷ after) t)
    ∙ ap (λ w. chunk ++ drop (length chunk) w)
        (sym (append_assoc (replicate (length text) 0) (drop (length text) before) (0 ∷ after)))
    ∙ ap (λ w. chunk ++ w)
        (drop-append (length chunk) cleared (0 ∷ after) (
          omega (
            arith,
            length-append (replicate {A = ℕ} (length text) 0) (drop (length text) before),
            length-replicate {A = ℕ} (length text) 0,
            length-drop (length text) before,
            t,
            l,
          )))
    ∙ sym (append_assoc chunk (drop (length chunk) cleared) (0 ∷ after))

-- From a buffer with a zero byte behind the length of the file, a file that is shorter than the
-- buffer is sent whole, in one piece.
pub send_file-short :
    (n c : ℕ) (cs before after : Bytes)
    → length (c ∷ cs) < n
    → length (c ∷ cs) ≤ length before
    → send_file n (c ∷ cs) (before ++ 0 ∷ after) ≡ some ((c ∷ cs) ∷ [])
unfolding send_file
send_file-short n c cs before after h l =
    let (text, e, t) = c_string-some before after in
    let next = drop (length (c ∷ cs)) (replicate (length text) 0 ++ drop (length text) before) in
    let (text', e', t') = c_string-some ((c ∷ cs) ++ next) after in
    send_file_loop-round (length (c ∷ cs)) n (c ∷ cs) (before ++ 0 ∷ after) text c cs e
      (take-all n (c ∷ cs) (omega arith))
    ∙ ap (Option.map (λ sends. (c ∷ cs) ∷ sends)) (
        send_file_loop-end (length cs) n _ _ text'
          (ap c_string (next_buf-zero text (c ∷ cs) before after t l) ∙ e')
          (rw (drop-all n (c ∷ cs) (omega arith)) (take-all n [] (omega arith))))

-- The clearing of the buffer runs off its end once a full piece with no NUL has been read: a file
-- that begins with such a piece leads to undefined behaviour, from a buffer of zeros too.
pub send_file-overrun :
    (c : ℕ) (cs rest : Bytes)
    → IsText (c ∷ cs)
    → send_file (length (c ∷ cs)) ((c ∷ cs) ++ rest) (replicate (length (c ∷ cs)) 0) ≡ none
unfolding send_file
send_file-overrun c cs rest t =
    let n = length (c ∷ cs) in
    send_file_loop-round (length ((c ∷ cs) ++ rest)) n ((c ∷ cs) ++ rest) (replicate n 0) [] c cs
      (zeros-text n (omega arith)) (take-append (c ∷ cs) rest)
    ∙ ap (Option.map (λ sends. (c ∷ cs) ∷ sends)) (
        send_file_loop-fault (length ((c ∷ cs) ++ rest)) n (drop n ((c ∷ cs) ++ rest))
          (next_buf [] (c ∷ cs) (replicate n 0))
          (rw
            (
              drop-all {A = ℕ} n (replicate n 0) (omega (arith, length-replicate {A = ℕ} n 0)),
              append-nil (c ∷ cs),
            )
            (c_string-none (c ∷ cs) t)))
