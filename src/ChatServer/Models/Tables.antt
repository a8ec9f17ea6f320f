-- ===== src/ChatServer/Models/Tables.antt =====
-- The tables of ChatServer/chat_db.sql that the statements of ChatServer/src/server/model/ read and
-- write, and what the MySQL server is relied on to do with those statements.
use cpp_tiny_lab.Base.{
  ℕ, ◌+◌, ◌^◌, ◌<◌, ◌≡◌, ◌≢◌, true, false, ◌&&◌, Option, none, some, List, [], ◌∷◌, ◌++◌, All, map,
  if◌then◌else◌,
}
use cpp_tiny_lab.Base.Bytes.{Bytes, codes, bytes_eq, count}
use cpp_tiny_lab.Base.Int.{ℤ, pos, eq_ℤ}
use cpp_tiny_lab.Base.Numerals.{IsInt, decimal_ℤ}
use cpp_tiny_lab.ChatServer.{User}
use cpp_tiny_lab.ChatServer.Models.Database.{Row, Mysql}
use cpp_tiny_lab.ChatServer.Models.Statements.{
  user_insert_sql, user_query_sql, update_state_sql, reset_state_sql, offline_insert_sql,
  offline_remove_sql, offline_query_sql, query_gropu_users_sql, friend_query_sql, query_groups_sql,
  group_users_sql,
}

-- A row of `GroupUser`.
pub record Member : Type 0 where
  pub groupid : ℤ
  pub userid : ℤ

-- `User`, `OfflineMessage` and `GroupUser`.
pub record Tables : Type 0 where
  pub users : List User
  pub messages : List (ℤ × Bytes)
  pub members : List Member

-- The user with an id, the primary key.
unfoldable pub find_user : ℤ → List User → Option User
find_user id [] = none
find_user id (u ∷ us) = if eq_ℤ u.id id then some u else find_user id us

-- How often a message is stored for a user.
unfoldable pub times : ℤ → List (ℤ × Bytes) → Bytes → ℕ
times id [] m = 0
times id ((k, x) ∷ messages) m = (if eq_ℤ k id && bytes_eq x m then 1 else 0) + times id messages m

abbrev pub drop_messages : ℤ → List (ℤ × Bytes) → List (ℤ × Bytes)
drop_messages id [] = []
drop_messages id ((k, x) ∷ messages) =
    let rest = drop_messages id messages in if eq_ℤ k id then rest else (k, x) ∷ rest

-- How often a user is a member of a group: once at most, by the primary key.
unfoldable pub times_member : ℤ → ℤ → List Member → ℕ
times_member group user [] = 0
times_member group user (m ∷ ms) =
    (if eq_ℤ m.groupid group && eq_ℤ m.userid user then 1 else 0) + times_member group user ms

-- How often a list has an id.
abbrev pub count_id : ℤ → List ℤ → ℕ
count_id id [] = 0
count_id id (k ∷ ids) = (if eq_ℤ k id then 1 else 0) + count_id id ids

abbrev pub with_state : Bytes → User → User
with_state state u = record u { state = state }

abbrev pub set_state : ℤ → Bytes → User → User
set_state id state u = if eq_ℤ u.id id then with_state state u else u

abbrev pub set_offline : User → User
set_offline u = if bytes_eq u.state (codes "online") then with_state (codes "offline") u else u

-- A text that stands for itself between quotes: no NUL, no quote and no backslash, which begins an
-- escape there.
abbrev pub IsLiteral : Bytes → Type 0
IsLiteral s = All (λ c. (c ≢ 0) × (c ≢ b'\'') × (c ≢ b'\\')) s

abbrev pub row_of_user : User → Row
row_of_user u = some (decimal_ℤ u.id) ∷ some u.name ∷ some u.password ∷ some u.state ∷ []

abbrev pub rows_of_user : Option User → List Row
rows_of_user none = []
rows_of_user (some u) = row_of_user u ∷ []

abbrev pub row_of_id : ℤ → Row
row_of_id id = some (decimal_ℤ id) ∷ []

abbrev pub row_of_text : Bytes → Row
row_of_text m = some m ∷ []

abbrev pub row_of_three : ℤ × Bytes × Bytes → Row
row_of_three (id, name, text) = some (decimal_ℤ id) ∷ some name ∷ some text ∷ []

abbrev pub row_of_four : ℤ × Bytes × Bytes × Bytes → Row
row_of_four (id, name, text, role) = some (decimal_ℤ id) ∷ some name ∷ some text ∷ some role ∷ []

-- What is relied on of a server that can be reached, `tables s` being the tables in the state `s`. A
-- statement that changes a table may fail, and then changes nothing; the order of selected rows is
-- open.
pub record IsServer (mysql : Mysql) (tables : mysql.State → Tables) : Type 0 where
  pub connects : (s : mysql.State) → (mysql.real_connect s).0 ≡ true
  pub connect_keeps : (s : mysql.State) → tables (mysql.real_connect s).1 ≡ tables s
  pub close_keeps : (s : mysql.State) → tables (mysql.close s) ≡ tables s
  pub result_keeps : (s : mysql.State) → tables (mysql.use_result s).1 ≡ tables s
  pub fails :
      (sql : Bytes) (s : mysql.State)
      → (mysql.mysql_query sql s).0 ≡ false
      → tables (mysql.mysql_query sql s).1 ≡ tables s
  pub selects :
      (rest : Bytes) (s : mysql.State)
      → tables (mysql.mysql_query (codes "select " ++ rest) s).1 ≡ tables s
  -- A new user has a number that no user had, and that is an `int`.
  pub adds_user :
      (u : User) (s s' : mysql.State)
      → IsLiteral u.name
      → IsLiteral u.password
      → IsLiteral u.state
      → mysql.mysql_query (user_insert_sql u) s ≡ (true, s')
      → (mysql.insert_id s' < 2 ^ 31)
        × (find_user (pos (mysql.insert_id s')) (tables s).users ≡ none)
        × (tables s' ≡ record (tables s) {
          users = (tables s).users ++ record u { id = pos (mysql.insert_id s') } ∷ [];
        })
  pub selects_user :
      (id : ℤ) (s : mysql.State)
      → IsInt id
      → (mysql.use_result (mysql.mysql_query (user_query_sql id) s).1).0
        ≡ some (rows_of_user (find_user id (tables s).users))
  pub updates_state :
      (u : User) (s s' : mysql.State)
      → IsInt u.id
      → IsLiteral u.state
      → mysql.mysql_query (update_state_sql u) s ≡ (true, s')
      → tables s' ≡ record (tables s) { users = map (set_state u.id u.state) (tables s).users }
  pub resets_states :
      (s s' : mysql.State)
      → mysql.mysql_query reset_state_sql s ≡ (true, s')
      → tables s' ≡ record (tables s) { users = map set_offline (tables s).users }
  pub adds_message :
      (id : ℤ) (m : Bytes) (s s' : mysql.State)
      → IsInt id
      → IsLiteral m
      → mysql.mysql_query (offline_insert_sql id m) s ≡ (true, s')
      → tables s' ≡ record (tables s) { messages = (tables s).messages ++ (id, m) ∷ [] }
  pub deletes_messages :
      (id : ℤ) (s s' : mysql.State)
      → IsInt id
      → mysql.mysql_query (offline_remove_sql id) s ≡ (true, s')
      → tables s' ≡ record (tables s) { messages = drop_messages id (tables s).messages }
  pub selects_messages :
      (id : ℤ) (s : mysql.State)
      → IsInt id
      → (ms : List Bytes) × ((mysql.use_result (mysql.mysql_query (offline_query_sql id) s).1).0
          ≡ some (map row_of_text ms))
        × ((m : Bytes) → count m ms ≡ times id (tables s).messages m)
  pub selects_members :
      (user group : ℤ) (s : mysql.State)
      → IsInt user
      → IsInt group
      → (ids : List ℤ) × ((mysql.use_result
            (mysql.mysql_query (query_gropu_users_sql user group) s).1).0
          ≡ some (map row_of_id ids))
        × All IsInt ids
        × ((id : ℤ)
            → count_id id ids
              ≡ (if eq_ℤ id user then 0 else times_member group id (tables s).members))
  -- No column of these is NULL.
  pub selects_friends :
      (id : ℤ) (s : mysql.State)
      → IsInt id
      → (rows : List (ℤ × Bytes × Bytes)) × ((mysql.use_result
            (mysql.mysql_query (friend_query_sql id) s).1).0
          ≡ some (map row_of_three rows))
  pub selects_groups :
      (id : ℤ) (s : mysql.State)
      → IsInt id
      → (rows : List (ℤ × Bytes × Bytes)) × ((mysql.use_result
            (mysql.mysql_query (query_groups_sql id) s).1).0
          ≡ some (map row_of_three rows))
        × All (λ row. IsInt row.0) rows
  pub selects_group_users :
      (group : ℤ) (s : mysql.State)
      → IsInt group
      → (rows : List (ℤ × Bytes × Bytes × Bytes)) × ((mysql.use_result
            (mysql.mysql_query (group_users_sql group) s).1).0
          ≡ some (map row_of_four rows))
