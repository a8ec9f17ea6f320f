-- ===== src/ChatServer/Overrun/Tests.antt =====
-- A message of 1000 bytes to a user who is offline, ChatServer/src/server/.
use cpp_tiny_lab.Base.{
  ℕ, zero, suc, ◌≡◌, refl, true, none, some, List, [], ◌∷◌, ◌++◌, arith, length, replicate,
  length-replicate,
}
use cpp_tiny_lab.Base.Bytes.{Bytes, IsText}
use cpp_tiny_lab.Base.Int.{ℤ, pos}
use cpp_tiny_lab.ChatServer.Json.{JsonLibrary}
use cpp_tiny_lab.ChatServer.Models.Database.{Mysql}
use cpp_tiny_lab.ChatServer.Models.Sql.{sql_models}
use cpp_tiny_lab.ChatServer.Service.{Service, one_chat, find}
use cpp_tiny_lab.ChatServer.Overrun.{one_chat-overrun}

-- A client library that logs the statements.
abbrev logging : Mysql
logging = record {
  State = List Bytes;
  real_connect = λ log. (true, log);
  mysql_query = λ sql log. (true, log ++ sql ∷ []);
  use_result = λ log. (none, log);
  insert_id = λ log. length log;
  close = λ log. log;
}

-- An object is the number of its receiver and prints as 1000 bytes.
abbrev long_objects : JsonLibrary
long_objects = record {
  Json = ℤ;
  parse = λ b. none;
  object = λ fields. pos 0;
  get_int = λ js key. some js;
  get_string = λ js key. none;
  get_texts = λ js key. none;
  contains = λ js key. true;
  show = λ js key. [];
  dump = λ js. replicate 1000 b'A';
  is_utf8 = λ js. true;
}

replicate-IsText : (n : ℕ) → IsText (replicate n b'A')
replicate-IsText zero = tt
replicate-IsText (suc n) = (omega arith, replicate-IsText n)

abbrev alone : Service (sql_models logging) long_objects
alone = record { user_conn_map = []; db = some []; sent = [] }

one_chat-overrun_example :
    (s' : Service (sql_models logging) long_objects) × (one_chat
        (sql_models logging)
        long_objects
        7
        (pos 2)
        alone
      ≡ some s')
    × (s'.db ≡ none)
unfolding find
one_chat-overrun_example =
    one_chat-overrun logging long_objects 7 (pos 2) alone (pos 2) [] refl refl refl
      (replicate-IsText 1000) (omega (arith, length-replicate {A = ℕ} 1000 b'A'))
