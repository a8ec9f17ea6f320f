-- ===== src/ChatServer/Service/Stored/Races.antt =====
-- Two logins of one user at a time, on two threads of the server,
-- ChatServer/src/server/chatservice.cpp.
use cpp_tiny_lab.Base.{◌≡◌, ap, ◌∙◌, true, Option, none, some}
use cpp_tiny_lab.Base.Bytes.{codes}
use cpp_tiny_lab.Base.Int.{ℤ}
use cpp_tiny_lab.Base.Numerals.{IsInt}
use cpp_tiny_lab.ChatServer.{User, default_user}
use cpp_tiny_lab.ChatServer.Json.{JsonLibrary}
use cpp_tiny_lab.ChatServer.Models.Database.{Mysql}
use cpp_tiny_lab.ChatServer.Models.Statements.{user_query_sql, update_state_sql}
use cpp_tiny_lab.ChatServer.Models.Sql.{sql_models, user_query}
use cpp_tiny_lab.ChatServer.Models.Sql.Methods.{succeeds, asked, find_user-id, user_query-some}
use cpp_tiny_lab.ChatServer.Models.Tables.{Tables, find_user, with_state, IsServer}
use cpp_tiny_lab.ChatServer.Service.{Conn, find, Service, login, login_success, outcome}
use cpp_tiny_lab.ChatServer.Service.Connections.{insert-none, insert-some, find-head}
use cpp_tiny_lab.ChatServer.Service.Online.{login_success-map, outcome-accepted}
use cpp_tiny_lab.ChatServer.Service.Stored.{keep-some, accepts-offline}
use cpp_tiny_lab.ChatServer.Service.Stored.States.{login-twice}

module _ (mysql : Mysql) (tables : mysql.State → Tables) (server : IsServer mysql tables)
    (library : JsonLibrary) where
  open library use {Json, get_int, get_string}

  -- Where the server can be reached, its `select`s get through and the update of the state succeeds: if
  -- a thread has asked for a user who is offline and has no connection, with the right password, and
  -- another thread then makes a whole login of that user, which leaves the user online in the table,
  -- the first thread, going on, accepts its login as well; and the user's connection stays that of
  -- the other thread.
  pub login-race :
      (conn conn' : Conn) (js' : Json) (s : Service (sql_models mysql) library) (d : mysql.State)
      (id : ℤ) (u : User)
      → s.db ≡ some d
      → find id s.user_conn_map ≡ none
      → get_int js' (codes "id") ≡ some id
      → get_string js' (codes "password") ≡ some u.password
      → IsInt id
      → find_user id (tables d).users ≡ some u
      → u.state ≡ codes "offline"
      → succeeds mysql
          (update_state_sql (with_state (codes "online") u))
          (asked mysql (user_query_sql id) d)
        ≡ true
      → (s' : Service (sql_models mysql) library) × (d' : mysql.State) × (((sql_models
              mysql).user_query
            id s.db).0
          ≡ u)
        × (login (sql_models mysql) library conn' js' s ≡ some s')
        × (s'.db ≡ some d')
        × (find_user id (tables d').users ≡ some (with_state (codes "online") u))
        × (outcome (sql_models mysql) library conn id u.password u s'
            ≡ login_success (sql_models mysql) library conn id u s')
        × (find id (login_success (sql_models mysql) library conn id u s').user_conn_map
            ≡ some conn')
  login-race conn conn' js' s d id u b away e f h found off ok =
      let (s', d', d2, r, m, b', online, again) =
        login-twice mysql tables server library conn' conn js' js' s d id u b e f e f h found off
          ok in
      let there : find id s'.user_conn_map ≡ some conn' =
        ap (find id) (m ∙ insert-none id conn' s.user_conn_map away)
        ∙ find-head id conn' s.user_conn_map in
      (
        s',
        d',
        ap (λ (p : User × Option mysql.State). p.0)
            (keep-some default_user u (user_query mysql id) d _ s.db b
              (user_query-some mysql tables server id u d h found)),
        r,
        b',
        online,
        outcome-accepted (sql_models mysql) library conn id u.password u s'
            (accepts-offline id u (find_user-id id _ u found) off),
        ap (find id) (
              login_success-map (sql_models mysql) library conn id u s'
              ∙ insert-some id conn conn' s'.user_conn_map there)
            ∙ there,
      )
