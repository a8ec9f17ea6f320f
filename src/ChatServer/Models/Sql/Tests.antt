-- ===== src/ChatServer/Models/Sql/Tests.antt =====
-- The classes of ChatServer/src/server/model/ over a client library that answers with given rows.
use cpp_tiny_lab.Base.{◌≡◌, refl, true, some, List, [], ◌∷◌, ◌++◌, arith, map, length}
use cpp_tiny_lab.Base.Bytes.{Bytes}
use cpp_tiny_lab.Base.Int.{pos}
use cpp_tiny_lab.ChatServer.Models.Database.{Row, Mysql}
use cpp_tiny_lab.ChatServer.Models.Sql.{query_gropu_users}
use cpp_tiny_lab.ChatServer.Models.Statements.{query_gropu_users_sql}
use cpp_tiny_lab.ChatServer.Models.Sql.Rows.{query_gropu_users-rows}
use cpp_tiny_lab.ChatServer.Models.Tables.{row_of_id}

-- It logs the statements.
abbrev answering : List Row → Mysql
answering rows = record {
  State = List Bytes;
  real_connect = λ log. (true, log);
  mysql_query = λ sql log. (true, log ++ sql ∷ []);
  use_result = λ log. (some rows, log);
  insert_id = λ log. length log;
  close = λ log. log;
}

query_gropu_users-rows_example :
    query_gropu_users (answering (map row_of_id (pos 2 ∷ pos 3 ∷ []))) (pos 1) (pos 4) []
    ≡ some (pos 2 ∷ pos 3 ∷ [], query_gropu_users_sql (pos 1) (pos 4) ∷ [])
query_gropu_users-rows_example =
    query_gropu_users-rows (answering (map row_of_id (pos 2 ∷ pos 3 ∷ []))) (pos 1) (pos 4)
      (pos 2 ∷ pos 3 ∷ []) [] [] (query_gropu_users_sql (pos 1) (pos 4) ∷ [])
      (query_gropu_users_sql (pos 1) (pos 4) ∷ []) (omega arith) (omega arith)
      (omega arith, (omega arith, tt)) refl refl refl
