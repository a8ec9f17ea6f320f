-- ===== src/ChatServer/Json/Coded.antt =====
-- A JSON library that keeps the promises: an object is written as numbers, each text and each list
-- behind its length.
use cpp_tiny_lab.Base.{
  ℕ, zero, suc, ◌≡◌, refl, ap, true, Option, none, some, List, [], ◌∷◌, ◌++◌, length, take, drop,
}
use cpp_tiny_lab.Base.Bytes.{Bytes}
use cpp_tiny_lab.Base.Int.{pos, negsuc}
use cpp_tiny_lab.Base.Numerals.{decimal_ℤ}
use cpp_tiny_lab.ChatServer.Json.{
  Value, int, text, texts, Fields, JsonLibrary, lookup, as_int, as_string, as_texts, is_some,
  IsJson,
}

put_text : Bytes → Bytes → Bytes
put_text s rest = length s ∷ (s ++ rest)

take_text : Bytes → Bytes × Bytes
take_text [] = ([], [])
take_text (n ∷ rest) = (take n rest, drop n rest)

take-length-append : (s rest : Bytes) → take (length s) (s ++ rest) ≡ s
take-length-append [] rest = refl
take-length-append (c ∷ s) rest = ap (◌∷◌ c) (take-length-append s rest)

drop-length-append : (s rest : Bytes) → drop (length s) (s ++ rest) ≡ rest
drop-length-append [] rest = refl
drop-length-append (c ∷ s) rest = drop-length-append s rest

take_text-put_text : (s rest : Bytes) → take_text (put_text s rest) ≡ (s, rest)
unfolding put_text take_text
take_text-put_text s rest = rw (take-length-append s rest, drop-length-append s rest) refl

put_texts : List Bytes → Bytes → Bytes
put_texts [] rest = rest
put_texts (s ∷ ss) rest = put_text s (put_texts ss rest)

take_texts : ℕ → Bytes → List Bytes × Bytes
take_texts zero bytes = ([], bytes)
take_texts (suc n) bytes =
    let (s, rest) = take_text bytes in let (ss, rest') = take_texts n rest in (s ∷ ss, rest')

take_texts-put_texts :
    (ss : List Bytes) (rest : Bytes) → take_texts (length ss) (put_texts ss rest) ≡ (ss, rest)
unfolding take_texts put_texts
take_texts-put_texts [] rest = refl
take_texts-put_texts (s ∷ ss) rest =
    rw (take_text-put_text s (put_texts ss rest), take_texts-put_texts ss rest) refl

put_value : Value → Bytes → Bytes
put_value (int (pos n)) rest = 0 ∷ n ∷ rest
put_value (int (negsuc n)) rest = 1 ∷ n ∷ rest
put_value (text s) rest = 2 ∷ put_text s rest
put_value (texts ss) rest = 3 ∷ length ss ∷ put_texts ss rest

take_value : Bytes → Option (Value × Bytes)
take_value (zero ∷ n ∷ rest) = some (int (pos n), rest)
take_value (suc zero ∷ n ∷ rest) = some (int (negsuc n), rest)
take_value (suc (suc zero) ∷ rest) = let (s, rest') = take_text rest in some (text s, rest')
take_value (suc (suc (suc t)) ∷ n ∷ rest) =
    let (ss, rest') = take_texts n rest in some (texts ss, rest')
take_value _ = none

take_value-put_value : (v : Value) (rest : Bytes) → take_value (put_value v rest) ≡ some (v, rest)
unfolding take_value put_value
take_value-put_value (int (pos n)) rest = refl
take_value-put_value (int (negsuc n)) rest = refl
take_value-put_value (text s) rest = rw (take_text-put_text s rest) refl
take_value-put_value (texts ss) rest = rw (take_texts-put_texts ss rest) refl

put_fields : Fields → Bytes
put_fields [] = []
put_fields ((k, v) ∷ fields) = put_text k (put_value v (put_fields fields))

take_fields : ℕ → Bytes → Option Fields
take_fields zero bytes = some []
take_fields (suc n) bytes =
    let (k, rest) = take_text bytes in
    elim (take_value rest) [
      | none ↦ none
      | some r ↦ elim (take_fields n r.1) [ none ↦ none | some fs ↦ some ((k, r.0) ∷ fs) ]
    ]

take_fields-put_fields :
    (fields : Fields) → take_fields (length fields) (put_fields fields) ≡ some fields
unfolding take_fields put_fields
take_fields-put_fields [] = refl
take_fields-put_fields ((k, v) ∷ fields) =
    rw
      (
        take_text-put_text k (put_value v (put_fields fields)),
        take_value-put_value v (put_fields fields),
        take_fields-put_fields fields,
        take_fields,
      )
      (ap (λ (p : Bytes × Bytes). some ((p.0, v) ∷ fields))
        (take_text-put_text k (put_value v (put_fields fields))))

parse_fields : Bytes → Option Fields
unfolding take_fields take_value
parse_fields [] = none
parse_fields (n ∷ bytes) = take_fields n bytes

show_value : Option Value → Bytes
show_value (some (int n)) = decimal_ℤ n
show_value _ = []

unfoldable pub coded : JsonLibrary
unfolding parse_fields show_value put_fields put_value put_texts put_text take_text take_texts
coded = record {
  Json = Fields;
  parse = parse_fields;
  object = λ fields. fields;
  get_int = λ js key. as_int (lookup key js);
  get_string = λ js key. as_string (lookup key js);
  get_texts = λ js key. as_texts (lookup key js);
  contains = λ js key. is_some (lookup key js);
  show = λ js key. show_value (lookup key js);
  dump = λ js. length js ∷ put_fields js;
  is_utf8 = λ js. true;
}

pub coded-IsJson : IsJson coded
unfolding coded
coded-IsJson = record {
  parse-dump = λ fields u. take_fields-put_fields fields;
  get_int-object = λ fields key. refl;
  get_string-object = λ fields key. refl;
  get_texts-object = λ fields key. refl;
  contains-object = λ fields key. refl;
  show-object = λ fields key n e. ap show_value e;
}
