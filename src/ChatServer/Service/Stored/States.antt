-- ===== src/ChatServer/Service/Stored/States.antt =====
-- The state of a user who has logged in, over the tables of the database,
-- ChatServer/src/server/chatservice.cpp.
use cpp_tiny_lab.Base.{
  ◌≡◌, refl, ap, sym, subst, ◌∙◌, true, false, Option, some, List, [], ◌∷◌, map, arith,
}
use cpp_tiny_lab.Base.Bytes.{Bytes, codes}
use cpp_tiny_lab.Base.Int.{ℤ}
use cpp_tiny_lab.Base.Numerals.{IsInt}
use cpp_tiny_lab.ChatServer.{User, default_user}
use cpp_tiny_lab.ChatServer.Answers.{already_online}
use cpp_tiny_lab.ChatServer.Json.{JsonLibrary}
use cpp_tiny_lab.ChatServer.Models.Database.{Mysql}
use cpp_tiny_lab.ChatServer.Models.Statements.{user_query_sql, update_state_sql}
use cpp_tiny_lab.ChatServer.Models.Sql.{
  sql_models, keep, user_query, update_state, offline_query, friend_query, query_groups,
}
use cpp_tiny_lab.ChatServer.Models.Sql.Methods.{
  succeeds, asked, asked-tables, find_user-id, user_query-some, update_state-succeeds,
}
use cpp_tiny_lab.ChatServer.Models.Sql.Messages.{offline_query-times, offline_remove-users}
use cpp_tiny_lab.ChatServer.Models.Sql.Joins.{friend_query-reads, query_groups-reads}
use cpp_tiny_lab.ChatServer.Models.Tables.{Tables, find_user, with_state, set_state, IsServer}
use cpp_tiny_lab.ChatServer.Service.{
  Conn, insert, Service, send, refusal, take_offline, login, login_success,
}
use cpp_tiny_lab.ChatServer.Service.Online.{login_success-map}
use cpp_tiny_lab.ChatServer.Service.Stored.{keep-some, login-offline, login-online}
use cpp_tiny_lab.ChatServer.Service.Stored.Users.{find_user-map, set_state-id, set_state_self}
use cpp_tiny_lab.ChatServer.Service.Stored.Inbox.{take_offline-nil, take_offline-cons}

module _ (mysql : Mysql) (tables : mysql.State → Tables) (server : IsServer mysql tables)
    (library : JsonLibrary) where
  open library use {Json, get_int, get_string}

  -- A database that met no undefined behaviour, with these users.
  abbrev HasUsers : List User → Option mysql.State → Type 0
  HasUsers us o = (d : mysql.State) × (o ≡ some d) × ((tables d).users ≡ us)

  keep-HasUsers :
      {A : Type 0} (otherwise a : A) (f : mysql.State → Option (A × mysql.State)) (us : List User)
      (d d' : mysql.State) (o : Option mysql.State)
      → o ≡ some d
      → f d ≡ some (a, d')
      → (tables d').users ≡ us
      → HasUsers us (keep otherwise f o).1
  keep-HasUsers {A} otherwise a f us d d' o e r t =
      (d', ap (λ (p : A × Option mysql.State). p.1) (keep-some otherwise a f d d' o e r), t)

  friend_query-HasUsers :
      (id : ℤ) (us : List User) (o : Option mysql.State)
      → IsInt id
      → HasUsers us o
      → HasUsers us ((sql_models mysql).friend_query id o).1
  friend_query-HasUsers id us o h (d, e, t) =
      let (friends, d', q, k) = friend_query-reads mysql tables server id d h in
      keep-HasUsers [] friends (friend_query mysql id) us d d' o e q
        (ap (λ (t : Tables). t.users) k ∙ t)

  query_groups-HasUsers :
      (id : ℤ) (us : List User) (o : Option mysql.State)
      → IsInt id
      → HasUsers us o
      → HasUsers us ((sql_models mysql).query_groups id o).1
  query_groups-HasUsers id us o h (d, e, t) =
      let (groups, d', q, k) = query_groups-reads mysql tables server id d h in
      keep-HasUsers [] groups (query_groups mysql id) us d d' o e q
        (ap (λ (t : Tables). t.users) k ∙ t)

  taken-HasUsers :
      (id : ℤ) (us : List User) (d d' : mysql.State) (messages : List Bytes)
      → IsInt id
      → offline_query mysql id d ≡ some (messages, d')
      → (tables d').users ≡ us
      → HasUsers us (take_offline (sql_models mysql) library id (some d)).1
  taken-HasUsers id us d d' [] h q t = (
    d',
    ap (λ (p : List Bytes × Option mysql.State). p.1)
        (take_offline-nil (sql_models mysql) library id (some d) (some d')
          (keep-some [] [] (offline_query mysql id) d d' (some d) refl q)),
    t,
  )
  taken-HasUsers id us d d' (m ∷ ms) h q t =
      let (d2, r, k) = offline_remove-users mysql tables server id d' h in
      (
        d2,
        ap (λ (p : List Bytes × Option mysql.State). p.1)
              (take_offline-cons (sql_models mysql) library id m ms (some d) (some d')
                (keep-some [] (m ∷ ms) (offline_query mysql id) d d' (some d) refl q))
            ∙ r,
        k ∙ t,
      )

  take_offline-HasUsers :
      (id : ℤ) (us : List User) (o : Option mysql.State)
      → IsInt id
      → HasUsers us o
      → HasUsers us (take_offline (sql_models mysql) library id o).1
  take_offline-HasUsers id us o h (d, e, t) =
      let (messages, q, c) = offline_query-times mysql tables server id d h in
      subst (λ o. HasUsers us (take_offline (sql_models mysql) library id o).1) (sym e)
        (taken-HasUsers id us d _ messages h q
          (ap (λ (t : Tables). t.users) (asked-tables mysql tables server _ d) ∙ t))

  -- What an accepted login leaves in the table of users.
  login_success-HasUsers :
      (conn : Conn) (id : ℤ) (u : User) (s : Service (sql_models mysql) library) (d : mysql.State)
      → let online = with_state (codes "online") u in
        s.db ≡ some d
        → IsInt id
        → u.id ≡ id
        → succeeds mysql (update_state_sql online) d ≡ true
        → HasUsers
            (map (set_state u.id (codes "online")) (tables d).users)
            (login_success (sql_models mysql) library conn id u s).db
  unfolding login_success send
  login_success-HasUsers conn id u s d b h i ok =
      let online = with_state (codes "online") u in
      let us = map (set_state u.id (codes "online")) (tables d).users in
      let (r, t) =
        update_state-succeeds mysql tables server online d (rw i h) (omega arith) (omega arith)
          ok in
      query_groups-HasUsers id us _ h (
        friend_query-HasUsers id us _ h (
          take_offline-HasUsers id us _ h (
            keep-HasUsers false true (update_state mysql online) us d _ s.db b r
              (ap (λ (t : Tables). t.users) t))))

  -- Where the server can be reached, its `select`s get through and the update of the state succeeds: a
  -- login that the table accepts, of a user who is offline, records the connection, unless the user
  -- has one, and leaves the user online in the table, with the same name and password; and the same
  -- login once more, from any connection, is then refused, by one text on that connection.
  pub login-twice :
      (conn conn' : Conn) (js js' : Json) (s : Service (sql_models mysql) library) (d : mysql.State)
      (id : ℤ) (u : User)
      → s.db ≡ some d
      → get_int js (codes "id") ≡ some id
      → get_string js (codes "password") ≡ some u.password
      → get_int js' (codes "id") ≡ some id
      → get_string js' (codes "password") ≡ some u.password
      → IsInt id
      → find_user id (tables d).users ≡ some u
      → u.state ≡ codes "offline"
      → succeeds mysql
          (update_state_sql (with_state (codes "online") u))
          (asked mysql (user_query_sql id) d)
        ≡ true
      → (s' : Service (sql_models mysql) library) × (d' : mysql.State) × (d2 : mysql.State) × (login
            (sql_models mysql)
            library
            conn
            js
            s
          ≡ some s')
        × (s'.user_conn_map ≡ insert id conn s.user_conn_map)
        × (s'.db ≡ some d')
        × (find_user id (tables d').users ≡ some (with_state (codes "online") u))
        × (login (sql_models mysql) library conn' js' s'
            ≡ some (
                send
                  (sql_models mysql)
                  library
                  conn'
                  (refusal (sql_models mysql) library 2 already_online)
                  (record s' { db = some d2 })))
  login-twice conn conn' js js' s d id u b e f e' f' h found off ok =
      let i = find_user-id id _ u found in
      let same = asked-tables mysql tables server _ d in
      let s1 = record s { db = some (asked mysql (user_query_sql id) d) } in
      let (d', b', t) = login_success-HasUsers conn id u s1 _ refl h i ok in
      let online : find_user id (tables d').users ≡ some (with_state (codes "online") u) =
        ap (find_user id) t
        ∙ ap (λ (t : Tables). find_user id (map (set_state u.id (codes "online")) t.users)) same
        ∙ find_user-map (set_state u.id (codes "online")) (set_state-id u.id (codes "online")) id
            (tables d).users u found
        ∙ ap some (set_state_self u.id u (codes "online") refl) in
      (
        login_success (sql_models mysql) library conn id u s1,
        d',
        asked mysql (user_query_sql id) d',
        login-offline mysql tables server library conn js s d id u e f b h found off,
        login_success-map (sql_models mysql) library conn id u s1,
        b',
        online,
        login-online (sql_models mysql) library conn' js' _ id (with_state (codes "online") u) _ e'
            f'
            (keep-some default_user (with_state (codes "online") u) (user_query mysql id) d' _ _ b'
              (user_query-some mysql tables server id _ d' h online))
            i refl,
      )
