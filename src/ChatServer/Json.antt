-- ===== src/ChatServer/Json.antt =====
-- The JSON library that ChatServer/ uses, ChatServer/thirdparty/json.hpp, as an interface.
pub mod Coded
pub mod Objects
use cpp_tiny_lab.Base.{ℕ, ◌≡◌, Bool, true, false, Option, none, some, List, [], ◌∷◌, if◌then◌else◌}
use cpp_tiny_lab.Base.Bytes.{Bytes, bytes_eq}
use cpp_tiny_lab.Base.Int.{ℤ}
use cpp_tiny_lab.Base.Numerals.{decimal_ℤ}

-- A value that the programs store in a JSON object.
pub data Value : Type 0 where
  int : ℤ → Value
  text : Bytes → Value
  texts : List Bytes → Value

-- The assignments `js[key] = value` that made an object, in order.
abbrev pub Fields : Type 0
Fields = List (Bytes × Value)

-- `parse` and the `get`s are `none` where the library throws, `show` is what `cout << js[key]`
-- prints. `dump` throws unless all texts are UTF-8; `is_utf8` tells where it does not.
pub record JsonLibrary : Type 1 where
  pub Json : Type 0
  pub parse : Bytes → Option Json
  pub object : Fields → Json
  pub get_int : Json → Bytes → Option ℤ
  pub get_string : Json → Bytes → Option Bytes
  pub get_texts : Json → Bytes → Option (List Bytes)
  pub contains : Json → Bytes → Bool
  pub show : Json → Bytes → Bytes
  pub dump : Json → Bytes
  pub is_utf8 : Fields → Bool

-- The last assignment of a key counts.
abbrev pub lookup : Bytes → Fields → Option Value
lookup key [] = none
lookup key ((k, v) ∷ fields) = elim (lookup key fields) [
  | some w ↦ some w
  | none ↦ if bytes_eq k key then some v else none
]

abbrev pub as_int : Option Value → Option ℤ
as_int (some (int n)) = some n
as_int _ = none

abbrev pub as_string : Option Value → Option Bytes
as_string (some (text s)) = some s
as_string _ = none

abbrev pub as_texts : Option Value → Option (List Bytes)
as_texts (some (texts ss)) = some ss
as_texts _ = none

abbrev pub is_some {ℓ} : {A : Type ℓ} → Option A → Bool
is_some none = false
is_some (some a) = true

-- What the library promises of the objects that the programs make.
pub record IsJson (library : JsonLibrary) : Type 0 where
  pub parse-dump :
      (fields : Fields)
      → library.is_utf8 fields ≡ true
      → library.parse (library.dump (library.object fields)) ≡ some (library.object fields)
  pub get_int-object :
      (fields : Fields) (key : Bytes)
      → library.get_int (library.object fields) key ≡ as_int (lookup key fields)
  pub get_string-object :
      (fields : Fields) (key : Bytes)
      → library.get_string (library.object fields) key ≡ as_string (lookup key fields)
  pub get_texts-object :
      (fields : Fields) (key : Bytes)
      → library.get_texts (library.object fields) key ≡ as_texts (lookup key fields)
  pub contains-object :
      (fields : Fields) (key : Bytes)
      → library.contains (library.object fields) key ≡ is_some (lookup key fields)
  pub show-object :
      (fields : Fields) (key : Bytes) (n : ℤ)
      → lookup key fields ≡ some (int n)
      → library.show (library.object fields) key ≡ decimal_ℤ n
