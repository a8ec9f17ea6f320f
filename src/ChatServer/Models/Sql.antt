-- ===== src/ChatServer/Models/Sql.antt =====
-- `UserModel`, `OfflineMsgModel`, `FriendModel` and `GroupModel` of ChatServer/src/server/model/. The
-- result `none` of a method is undefined behaviour: a statement that overruns its array, or a NULL
-- column that is used as a text.
pub mod Bounds
pub mod Quotes
pub mod Rows
pub mod Fits
pub mod Methods
pub mod Messages
pub mod Joins
mod Tests
use cpp_tiny_lab.Base.{
  ◌>>=◌, read_all, ℕ, zero, suc, ◌≡◌, Bool, true, false, Option, none, some, List, [], ◌∷◌, ◌++◌,
  if◌then◌else◌,
}
use cpp_tiny_lab.Base.Bytes.{Bytes, codes}
use cpp_tiny_lab.Base.Int.{ℤ, pos}
use cpp_tiny_lab.Base.Numerals.{atoi, to_int32}
use cpp_tiny_lab.ChatServer.{User, default_user, Group, GroupUser}
use cpp_tiny_lab.ChatServer.Models.{Models}
use cpp_tiny_lab.ChatServer.Models.Database.{
  Row, Mysql, connect, update, query, sprintf_sql, column,
}
use cpp_tiny_lab.ChatServer.Models.Statements.{
  user_insert_sql, user_query_sql, update_state_sql, reset_state_sql, offline_insert_sql,
  offline_remove_sql, offline_query_sql, friend_insert_sql, friend_query_sql, create_group_sql,
  add_group_sql, query_groups_sql, group_users_sql, query_gropu_users_sql,
}

unfoldable pub user_of_row : Row → Option User
user_of_row row = column row 0 >>= λ id. column row 1 >>= λ name. column row 2 >>= λ password.
    column row 3 >>= λ state.
    some (record { id = atoi id; name = name; password = password; state = state })

-- The first row, or the user as it was made.
unfoldable pub first_user : Option (List Row) → Option User
first_user none = some default_user
first_user (some []) = some default_user
first_user (some (row ∷ rows)) = user_of_row row

pub friend_of_row : Row → Option User
friend_of_row row = column row 0 >>= λ id. column row 1 >>= λ name. column row 2 >>= λ state.
    some (record default_user { id = atoi id; name = name; state = state })

pub member_of_row : Row → Option GroupUser
member_of_row row = friend_of_row row >>= λ user.
    column row 3 >>= λ role. some (record { user = user; role = role })

pub group_of_row : Row → Option Group
group_of_row row = column row 0 >>= λ id. column row 1 >>= λ name.
    column row 2 >>= λ desc. some (record { id = atoi id; name = name; desc = desc; users = [] })

abbrev pub message_of_row : Row → Option Bytes
message_of_row row = column row 0

pub id_of_row : Row → Option ℤ
id_of_row row = column row 0 >>= λ id. some (atoi id)

-- The loop over the rows; a null result has none.
unfoldable pub read_rows {ℓ} : {A : Type ℓ} → (Row → Option A) → Option (List Row) → Option (List A)
read_rows f none = some []
read_rows f (some rows) = read_all f rows

module _ (mysql : Mysql) where
  open mysql use {State, insert_id, close}

  -- A statement whose success is returned.
  unfoldable pub do_update : Bytes → State → Option (Bool × State)
  do_update sql s = sprintf_sql sql >>= λ sql.
      let (connected, s1) = connect mysql s in
      some (
        if connected
        then (let (done, s2) = update mysql sql s1 in (done, close s2))
        else (false, close s1))

  -- A statement whose rows are read.
  unfoldable pub do_query {ℓ} :
      {A : Type ℓ} → Bytes → A → (Option (List Row) → Option A) → State → Option (A × State)
  do_query sql otherwise read s = sprintf_sql sql >>= λ sql.
      let (connected, s1) = connect mysql s in
      if connected
      then (let (res, s2) = query mysql sql s1 in read res >>= λ a. some (a, close s2))
      else some (otherwise, close s1)

  -- An insertion that makes an id.
  pub do_insert : Bytes → ℤ → State → Option (Bool × ℤ × State)
  do_insert sql id s = sprintf_sql sql >>= λ sql.
      let (connected, s1) = connect mysql s in
      some (
        if connected
        then (let (done, s2) = update mysql sql s1 in
            if done then (true, to_int32 (pos (insert_id s2)), close s2) else (false, id, close s2))
        else (false, id, close s1))

  pub user_insert : User → State → Option (Bool × User × State)
  user_insert u s =
      do_insert (user_insert_sql u) u.id s >>= λ r. some (r.0, record u { id = r.1 }, r.2)

  unfoldable pub user_query : ℤ → State → Option (User × State)
  user_query id s = do_query (user_query_sql id) default_user first_user s

  unfoldable pub update_state : User → State → Option (Bool × State)
  update_state u s = do_update (update_state_sql u) s

  -- The statement stands in the array from the start.
  pub reset_state : State → State
  reset_state s =
      let (connected, s1) = connect mysql s in
      if connected then close (update mysql reset_state_sql s1).1 else close s1

  unfoldable pub offline_insert : ℤ → Bytes → State → Option State
  offline_insert userid msg s = do_update (offline_insert_sql userid msg) s >>= λ r. some r.1

  unfoldable pub offline_remove : ℤ → State → Option State
  offline_remove userid s = do_update (offline_remove_sql userid) s >>= λ r. some r.1

  unfoldable pub offline_query : ℤ → State → Option (List Bytes × State)
  offline_query userid s = do_query (offline_query_sql userid) [] (read_rows message_of_row) s

  -- Two statements over one connection.
  pub friend_insert : ℤ → ℤ → State → Option State
  friend_insert userid friendid s = sprintf_sql (friend_insert_sql userid friendid) >>= λ sql.
      let (connected, s1) = connect mysql s in
      if connected
      then (let (done, s2) = update mysql sql s1 in
          sprintf_sql (friend_insert_sql friendid userid) >>= λ sql'.
          some (close (update mysql sql' s2).1))
      else some (close s1)

  unfoldable pub friend_query : ℤ → State → Option (List User × State)
  friend_query userid s = do_query (friend_query_sql userid) [] (read_rows friend_of_row) s

  pub create_group : Group → State → Option (Bool × Group × State)
  create_group g s =
      do_insert (create_group_sql g) g.id s >>= λ r. some (r.0, record g { id = r.1 }, r.2)

  pub add_group : ℤ → ℤ → Bytes → State → Option State
  add_group userid groupid role s =
      do_update (add_group_sql userid groupid role) s >>= λ r. some r.1

  -- The loop that reads the users of each group.
  unfoldable pub query_users : List Group → State → Option (List Group × State)
  query_users [] s = some ([], s)
  query_users (g ∷ gs) s = sprintf_sql (group_users_sql g.id) >>= λ sql.
      let (res, s1) = query mysql sql s in
      read_rows member_of_row res >>= λ users.
      query_users gs s1 >>= λ r. some (record g { users = g.users ++ users } ∷ r.0, r.1)

  unfoldable pub query_groups : ℤ → State → Option (List Group × State)
  query_groups userid s = sprintf_sql (query_groups_sql userid) >>= λ sql.
      let (connected, s1) = connect mysql s in
      if connected
      then (let (res, s2) = query mysql sql s1 in
          read_rows group_of_row res >>= λ groups.
          query_users groups s2 >>= λ r. some (r.0, close r.1))
      else some ([], close s1)

  pub query_gropu_users : ℤ → ℤ → State → Option (List ℤ × State)
  query_gropu_users userid groupid s =
      do_query (query_gropu_users_sql userid groupid) [] (read_rows id_of_row) s

-- Undefined behaviour stays: a database that met it is `none` for good.
abbrev pub keep {ℓ κ} :
    {A : Type ℓ} {S : Type κ} → A → (S → Option (A × S)) → Option S → A × Option S
keep otherwise f none = (otherwise, none)
keep otherwise f (some s) = elim (f s) [ none ↦ (otherwise, none) | some r ↦ (r.0, some r.1) ]

abbrev pub keep_two {ℓ κ μ} :
    {A : Type ℓ} {B : Type μ} {S : Type κ}
    → A
    → B
    → (S → Option (A × B × S))
    → Option S
    → A × B × Option S
keep_two a b f none = (a, b, none)
keep_two a b f (some s) = elim (f s) [ none ↦ (a, b, none) | some r ↦ (r.0, r.1, some r.2) ]

-- What the service uses.
abbrev pub sql_models : Mysql → Models
sql_models mysql = record {
  Db = Option mysql.State;
  user_insert = λ u. keep_two false u (user_insert mysql u);
  user_query = λ id. keep default_user (user_query mysql id);
  update_state = λ u. keep false (update_state mysql u);
  reset_state = λ db. elim db [ none ↦ none | some s ↦ some (reset_state mysql s) ];
  offline_insert = λ id msg db. db >>= offline_insert mysql id msg;
  offline_remove = λ id db. db >>= offline_remove mysql id;
  offline_query = λ id. keep [] (offline_query mysql id);
  friend_insert = λ id friend db. db >>= friend_insert mysql id friend;
  friend_query = λ id. keep [] (friend_query mysql id);
  create_group = λ g. keep_two false g (create_group mysql g);
  add_group = λ id group role db. db >>= add_group mysql id group role;
  query_groups = λ id. keep [] (query_groups mysql id);
  query_gropu_users = λ id group. keep [] (query_gropu_users mysql id group);
}
