-- ===== src/ChatServer/Json/Objects.antt =====
-- A JSON library of objects that all print alike, for the tests of ChatServer/.
use cpp_tiny_lab.Base.{true, none, []}
use cpp_tiny_lab.Base.Bytes.{codes}
use cpp_tiny_lab.ChatServer.Json.{Fields, JsonLibrary, lookup, as_int, as_string, as_texts, is_some}

abbrev pub objects : JsonLibrary
objects = record {
  Json = Fields;
  parse = λ b. none;
  object = λ fields. fields;
  get_int = λ js key. as_int (lookup key js);
  get_string = λ js key. as_string (lookup key js);
  get_texts = λ js key. as_texts (lookup key js);
  contains = λ js key. is_some (lookup key js);
  show = λ js key. [];
  dump = λ js. codes "message";
  is_utf8 = λ js. true;
}
