-- ===== src/ChatServer/Models/Memory.antt =====
-- Model classes over databases in memory, for the tests of ChatServer/.
use cpp_tiny_lab.Base.{true, List, [], ◌∷◌, ◌++◌}
use cpp_tiny_lab.Base.Bytes.{Bytes, codes}
use cpp_tiny_lab.Base.Int.{ℤ, pos}
use cpp_tiny_lab.ChatServer.Models.{Models}

-- A database of offline messages, where every user has the password `p` and every group three users.
abbrev pub memory : Models
memory = record {
  Db = List (ℤ × Bytes);
  user_insert = λ u db. (true, u, db);
  user_query = λ id db.
      (record { id = id; name = codes "n"; password = codes "p"; state = codes "offline" }, db);
  update_state = λ u db. (true, db);
  reset_state = λ db. db;
  offline_insert = λ id m db. db ++ (id, m) ∷ [];
  offline_remove = λ id db. [];
  offline_query = λ id db. ([], db);
  friend_insert = λ id friend db. db;
  friend_query = λ id db. ([], db);
  create_group = λ g db. (true, g, db);
  add_group = λ id group role db. db;
  query_groups = λ id db. ([], db);
  query_gropu_users = λ id group db. (pos 1 ∷ pos 2 ∷ pos 3 ∷ [], db);
}
