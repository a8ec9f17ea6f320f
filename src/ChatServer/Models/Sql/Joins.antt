-- ===== src/ChatServer/Models/Sql/Joins.antt =====
-- `FriendModel::query` and `GroupModel::queryGroups`, ChatServer/src/server/model/, on a server that
-- can be reached: they get through, and leave the tables as they were.
use cpp_tiny_lab.Base.{◌≡◌, refl, ap, ◌∙◌, some, List, [], ◌∷◌, ◌++◌, map, All, read_all}
use cpp_tiny_lab.Base.Bytes.{Bytes}
use cpp_tiny_lab.Base.Int.{ℤ}
use cpp_tiny_lab.Base.Numerals.{IsInt, decimal_ℤ, atoi, atoi-decimal_ℤ}
use cpp_tiny_lab.ChatServer.{User, default_user, Group, GroupUser}
use cpp_tiny_lab.ChatServer.Models.Database.{Mysql}
use cpp_tiny_lab.ChatServer.Models.Statements.{friend_query_sql, query_groups_sql, group_users_sql}
use cpp_tiny_lab.ChatServer.Models.Sql.{
  friend_of_row, member_of_row, group_of_row, read_rows, friend_query, query_users, query_groups,
}
use cpp_tiny_lab.ChatServer.Models.Sql.Fits.{fits-friend_query, fits-query_groups, fits-group_users}
use cpp_tiny_lab.ChatServer.Models.Sql.Methods.{asked, asked-tables, connected, do_query-asked}
use cpp_tiny_lab.ChatServer.Models.Tables.{Tables, row_of_three, row_of_four, IsServer}

abbrev friend_of : ℤ × Bytes × Bytes → User
friend_of (id, name, state) = record default_user {
  id = atoi (decimal_ℤ id);
  name = name;
  state = state;
}

abbrev member_of : ℤ × Bytes × Bytes × Bytes → GroupUser
member_of (id, name, state, role) = record { user = friend_of (id, name, state); role = role }

abbrev group_of : ℤ × Bytes × Bytes → Group
group_of (id, name, desc) = record {
  id = atoi (decimal_ℤ id);
  name = name;
  desc = desc;
  users = [];
}

read_rows-friends :
    (rows : List (ℤ × Bytes × Bytes))
    → read_rows friend_of_row (some (map row_of_three rows)) ≡ some (map friend_of rows)
unfolding read_rows read_all friend_of_row
read_rows-friends [] = refl
read_rows-friends ((id, name, state) ∷ rows) = rw (read_rows-friends rows) refl

read_rows-members :
    (rows : List (ℤ × Bytes × Bytes × Bytes))
    → read_rows member_of_row (some (map row_of_four rows)) ≡ some (map member_of rows)
unfolding read_rows read_all member_of_row friend_of_row
read_rows-members [] = refl
read_rows-members ((id, name, state, role) ∷ rows) = rw (read_rows-members rows) refl

read_rows-groups :
    (rows : List (ℤ × Bytes × Bytes))
    → read_rows group_of_row (some (map row_of_three rows)) ≡ some (map group_of rows)
unfolding read_rows read_all group_of_row
read_rows-groups [] = refl
read_rows-groups ((id, name, desc) ∷ rows) = rw (read_rows-groups rows) refl

group_of-IsInt :
    (rows : List (ℤ × Bytes × Bytes))
    → All (λ row. IsInt row.0) rows
    → All (λ (g : Group). IsInt g.id) (map group_of rows)
group_of-IsInt [] h = tt
group_of-IsInt ((id, name, desc) ∷ rows) h =
    (rw (atoi-decimal_ℤ id h.0) h.0, group_of-IsInt rows h.1)

module _ (mysql : Mysql) (tables : mysql.State → Tables) (server : IsServer mysql tables) where
  open mysql use {State, real_connect, mysql_query, use_result, close}

  pub friend_query-reads :
      (id : ℤ) (s : State)
      → IsInt id
      → (friends : List User) × (s' : State) × (friend_query mysql id s ≡ some (friends, s'))
        × (tables s' ≡ tables s)
  unfolding friend_query
  friend_query-reads id s h =
      let (rows, r) = server.selects_friends id (real_connect s).1 h in
      (
        map friend_of rows,
        asked mysql (friend_query_sql id) s,
        do_query-asked mysql tables server _ [] (map friend_of rows) (read_rows friend_of_row) s
            (fits-friend_query id h) (ap (read_rows friend_of_row) r ∙ read_rows-friends rows),
        asked-tables mysql tables server _ s,
      )

  query_users-reads :
      (groups : List Group) (s : State)
      → All (λ (g : Group). IsInt g.id) groups
      → (found : List Group) × (s' : State) × (query_users mysql groups s ≡ some (found, s'))
        × (tables s' ≡ tables s)
  unfolding query_users
  query_users-reads [] s h = ([], s, refl, refl)
  query_users-reads (g ∷ groups) s h =
      let (rows, r) = server.selects_group_users g.id s h.0 in
      let s1 = (use_result (mysql_query (group_users_sql g.id) s).1).1 in
      let (found, s2, q, t) = query_users-reads groups s1 h.1 in
      (
        record g { users = g.users ++ map member_of rows } ∷ found,
        s2,
        rw (fits-group_users g.id h.0, query_users)
            (rw (r) (rw (read_rows-members rows) (rw q refl))),
        t ∙ server.result_keeps _ ∙ server.selects _ s,
      )

  pub query_groups-reads :
      (id : ℤ) (s : State)
      → IsInt id
      → (groups : List Group) × (s' : State) × (query_groups mysql id s ≡ some (groups, s'))
        × (tables s' ≡ tables s)
  unfolding query_groups
  query_groups-reads id s h =
      let (rows, r, ints) = server.selects_groups id (real_connect s).1 h in
      let s1 = (use_result (mysql_query (query_groups_sql id) (real_connect s).1).1).1 in
      let (groups, s2, q, t) =
        query_users-reads (map group_of rows) s1 (group_of-IsInt rows ints) in
      (
        groups,
        close s2,
        rw (fits-query_groups id h, connected mysql tables server s, query_groups)
            (rw (r) (rw (read_rows-groups rows) (rw q refl))),
        server.close_keeps s2
            ∙ t
            ∙ server.result_keeps _
            ∙ server.selects _ _
            ∙ server.connect_keeps s,
      )
