-- ===== src/ChatServer/Models/Engine.antt =====
-- A server that executes the statements of ChatServer/src/server/model/ on tables in memory.
pub mod Reading
pub mod Executing
use cpp_tiny_lab.Base.{
  ℕ, suc, ◌^◌, ltb, Bool, true, false, ◌&&◌, ◌||◌, not, Option, none, some, List, [], ◌∷◌, ◌++◌,
  map, if◌then◌else◌, ◌==◌, ◌>>=◌,
}
use cpp_tiny_lab.Base.Bytes.{Bytes, codes, span}
use cpp_tiny_lab.Base.Int.{ℤ, pos, eq_ℤ}
use cpp_tiny_lab.Base.Numerals.{atoi, is_digit}
use cpp_tiny_lab.ChatServer.{User}
use cpp_tiny_lab.ChatServer.Models.Database.{Row, Mysql}
use cpp_tiny_lab.ChatServer.Models.Tables.{
  Member, Tables, find_user, drop_messages, set_state, set_offline, rows_of_user, row_of_id,
  row_of_text,
}

pub data Statement : Type 0 where
  insert_user : Bytes → Bytes → Bytes → Statement
  select_user : ℤ → Statement
  update_user : Bytes → ℤ → Statement
  update_users : Statement
  insert_message : ℤ → Bytes → Statement
  delete_messages : ℤ → Statement
  select_messages : ℤ → Statement
  select_members : ℤ → ℤ → Statement

-- What follows a text that a statement begins with.
pub strip : Bytes → Bytes → Option Bytes
strip [] s = some s
strip (c ∷ p) [] = none
strip (c ∷ p) (d ∷ s) = let rest = strip p s in if c == d then rest else none

abbrev pub is_number : ℕ → Bool
is_number c = is_digit c || c == b'-'

unfoldable pub read_number : Bytes → ℤ × Bytes
read_number s = let (d, rest) = span is_number s in (atoi d, rest)

abbrev pub is_inside : ℕ → Bool
is_inside c = not (c == b'\'')

unfoldable pub read_text : Bytes → Bytes × Bytes
read_text s = span is_inside s

read_insert_user : Bytes → Option Statement
read_insert_user s = strip (codes "insert into User(name, password, state) values('") s >>= λ s.
    let (name, s) = read_text s in
    strip (codes "', '") s >>= λ s.
    let (password, s) = read_text s in
    strip (codes "', '") s >>= λ s. some (insert_user name password (read_text s).0)

pub read_select_user : Bytes → Option Statement
read_select_user s =
    strip (codes "select * from User where id = ") s >>= λ s. some (select_user (read_number s).0)

read_update_user : Bytes → Option Statement
read_update_user s = strip (codes "update User set state = '") s >>= λ s.
    let (state, s) = read_text s in
    strip (codes "' where id = ") s >>= λ s. some (update_user state (read_number s).0)

read_update_users : Bytes → Option Statement
read_update_users s =
    strip (codes "update User set state = 'offline' where state = 'online'") s >>= λ s.
    some update_users

read_insert_message : Bytes → Option Statement
read_insert_message s = strip (codes "insert into OfflineMessage values(") s >>= λ s.
    let (id, s) = read_number s in
    strip (codes ", '") s >>= λ s. some (insert_message id (read_text s).0)

read_delete_messages : Bytes → Option Statement
read_delete_messages s = strip (codes "delete from OfflineMessage where userid = ") s >>= λ s.
    some (delete_messages (read_number s).0)

pub read_select_messages : Bytes → Option Statement
read_select_messages s =
    strip (codes "select message from OfflineMessage where userid = ") s >>= λ s.
    some (select_messages (read_number s).0)

pub read_select_members : Bytes → Option Statement
read_select_members s = strip (codes "select userid from GroupUser where userid != ") s >>= λ s.
    let (user, s) = read_number s in
    strip (codes " and groupid = ") s >>= λ s. some (select_members user (read_number s).0)

abbrev pub orelse : Option Statement → Option Statement → Option Statement
orelse (some a) o = some a
orelse none o = o

unfoldable pub read_sql : Bytes → Option Statement
unfolding strip read_insert_user read_select_user read_update_user read_update_users
    read_insert_message read_delete_messages read_select_messages read_select_members
read_sql s = orelse (read_insert_user s) (
    orelse (read_select_user s) (
      orelse (read_update_user s) (
        orelse (read_update_users s) (
          orelse (read_insert_message s) (
            orelse (read_delete_messages s)
              (orelse (read_select_messages s) (read_select_members s)))))))

-- `last` is the number that was made last. The members of the groups stay.
pub record Engine : Type 0 where
  pub users : List User
  pub messages : List (ℤ × Bytes)
  pub rows : List Row
  pub last : ℕ

abbrev pub group_members : List Member
group_members =
    record { groupid = pos 4; userid = pos 1 }
    ∷ record { groupid = pos 4; userid = pos 2 }
    ∷ record { groupid = pos 5; userid = pos 3 }
    ∷ []

abbrev pub engine_tables : Engine → Tables
engine_tables s = record { users = s.users; messages = s.messages; members = group_members }

unfoldable pub messages_of : ℤ → List (ℤ × Bytes) → List Bytes
messages_of id [] = []
messages_of id ((k, m) ∷ messages) =
    let rest = messages_of id messages in if eq_ℤ k id then m ∷ rest else rest

unfoldable pub others_of : ℤ → ℤ → List Member → List ℤ
others_of user group [] = []
others_of user group (m ∷ ms) =
    let rest = others_of user group ms in
    if eq_ℤ m.groupid group && not (eq_ℤ m.userid user) then m.userid ∷ rest else rest

unfoldable pub execute : Statement → Engine → Bool × Engine
execute (insert_user name password state) s =
    let user : User = record {
      id = pos (suc s.last);
      name = name;
      password = password;
      state = state;
    } in
    if ltb (suc s.last) (2 ^ 31)
    then (elim (find_user (pos (suc s.last)) s.users) [
      | none ↦ (true, record s { users = s.users ++ user ∷ []; last = suc s.last })
      | some u ↦ (false, s)
    ])
    else (false, s)
execute (select_user id) s = (true, record s { rows = rows_of_user (find_user id s.users) })
execute (update_user state id) s = (true, record s { users = map (set_state id state) s.users })
execute update_users s = (true, record s { users = map set_offline s.users })
execute (insert_message id m) s = (true, record s { messages = s.messages ++ (id, m) ∷ [] })
execute (delete_messages id) s = (true, record s { messages = drop_messages id s.messages })
execute (select_messages id) s =
    (true, record s { rows = map row_of_text (messages_of id s.messages) })
execute (select_members user group) s =
    (true, record s { rows = map row_of_id (others_of user group group_members) })

-- No user has friends or groups: a statement that is not read selects nothing.
abbrev pub run_sql : Option Statement → Engine → Bool × Engine
run_sql none s = (false, record s { rows = [] })
run_sql (some statement) s = execute statement s

abbrev pub engine : Mysql
engine = record {
  State = Engine;
  real_connect = λ s. (true, s);
  mysql_query = λ sql s. run_sql (read_sql sql) s;
  use_result = λ s. (some s.rows, s);
  insert_id = λ s. s.last;
  close = λ s. s;
}
