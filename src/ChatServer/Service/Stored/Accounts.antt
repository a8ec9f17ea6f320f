-- ===== src/ChatServer/Service/Stored/Accounts.antt =====
-- Who can log in, over the tables of the database, ChatServer/src/server/chatservice.cpp.
use cpp_tiny_lab.Base.{
  ◌+◌, ◌≤◌, ◌≡◌, refl, ap, ◌∙◌, Bool, true, false, Option, none, some, [], ◌∷◌, ◌++◌, arith, length,
}
use cpp_tiny_lab.Base.Bytes.{Bytes, codes}
use cpp_tiny_lab.Base.Int.{ℤ, pos}
use cpp_tiny_lab.Base.Numerals.{IsInt}
use cpp_tiny_lab.ChatServer.{User, default_user}
use cpp_tiny_lab.ChatServer.Answers.{registered_fields}
use cpp_tiny_lab.ChatServer.Json.{JsonLibrary}
use cpp_tiny_lab.ChatServer.Models.{Models}
use cpp_tiny_lab.ChatServer.Models.Database.{Mysql}
use cpp_tiny_lab.ChatServer.Models.Statements.{user_insert_sql, update_state_sql}
use cpp_tiny_lab.ChatServer.Models.Sql.{sql_models, user_insert, update_state}
use cpp_tiny_lab.ChatServer.Models.Sql.Methods.{
  succeeds, new_id, user_insert-succeeds, update_state-succeeds, find_user-id,
}
use cpp_tiny_lab.ChatServer.Models.Tables.{
  Tables, find_user, with_state, set_state, IsLiteral, IsServer,
}
use cpp_tiny_lab.ChatServer.Service.{
  Conn, find, erase, Service, send, login, login_success, logout, reg,
}
use cpp_tiny_lab.ChatServer.Service.Connections.{IsConnMap, find-erase}
use cpp_tiny_lab.ChatServer.Service.Stored.{keep-some, keep_two-some, login-offline}
use cpp_tiny_lab.ChatServer.Service.Stored.Users.{
  find_user-append, find_user-map, set_state-id, set_state_self,
}

abbrev pub new_user : Bytes → Bytes → User
new_user name pwd = record default_user { name = name; password = pwd }

offline-IsLiteral : IsLiteral (codes "offline")
offline-IsLiteral = omega arith

module _ (models : Models) (library : JsonLibrary) where
  open library use {Json, get_int, get_string, dump, object}

  reg-inserts :
      (conn : Conn) (js : Json) (s : Service models library) (name pwd : Bytes) (done : Bool)
      (u : User) (db : models.Db)
      → get_string js (codes "name") ≡ some name
      → get_string js (codes "password") ≡ some pwd
      → models.user_insert (new_user name pwd) s.db ≡ (done, u, db)
      → reg models library conn js s
        ≡ some (record s {
          db = db;
          sent = s.sent ++ (conn, dump (object (registered_fields done u.id))) ∷ [];
        })
  unfolding reg send
  reg-inserts conn js s name pwd done u db n p q = rw (n, p, q, reg) refl

  logs_out :
      (conn : Conn) (js : Json) (s : Service models library) (id : ℤ)
      → get_int js (codes "id") ≡ some id
      → logout models library conn js s
        ≡ some (record s {
          user_conn_map = erase id s.user_conn_map;
          db = (models.update_state (record default_user { id = id }) s.db).1;
        })
  unfolding logout
  logs_out conn js s id e = rw (e, logout) refl

module _ (mysql : Mysql) (tables : mysql.State → Tables) (server : IsServer mysql tables)
    (library : JsonLibrary) where
  open library use {Json, get_int, get_string, dump, object}

  abbrev registered : Bytes → Bytes → mysql.State → User
  registered name pwd d = record (new_user name pwd) {
    id = pos (new_id mysql (user_insert_sql (new_user name pwd)) d);
  }

  -- Where the server can be reached: a registration whose insertion succeeds, with a name and a password
  -- that have 940 bytes at most and no NUL, quote or backslash, is answered on its connection, once,
  -- by a number; and a login with that number and password, from any connection, is then accepted,
  -- with the name that was registered.
  pub registered-logs_in :
      (conn conn' : Conn) (js js' : Json) (s : Service (sql_models mysql) library) (d : mysql.State)
      (name pwd : Bytes)
      → s.db ≡ some d
      → get_string js (codes "name") ≡ some name
      → get_string js (codes "password") ≡ some pwd
      → IsLiteral name
      → IsLiteral pwd
      → length name + length pwd ≤ 940
      → succeeds mysql (user_insert_sql (new_user name pwd)) d ≡ true
      → get_int js' (codes "id") ≡ some (registered name pwd d).id
      → get_string js' (codes "password") ≡ some pwd
      → (s' : Service (sql_models mysql) library) × (d' : mysql.State) × (reg
            (sql_models mysql)
            library
            conn
            js
            s
          ≡ some s')
        × (s'.sent
            ≡ s.sent
              ++ (conn, dump (object (registered_fields true (registered name pwd d).id))) ∷ [])
        × (login (sql_models mysql) library conn' js' s'
            ≡ some (
                login_success
                  (sql_models mysql)
                  library
                  conn'
                  (registered name pwd d).id
                  (registered name pwd d)
                  (record s' { db = some d' })))
  registered-logs_in conn conn' js js' s d name pwd b n p ln lp len ok i p' =
      let u = new_user name pwd in
      let (r, lt, fresh, t) =
        user_insert-succeeds mysql tables server u d ln lp offline-IsLiteral (omega (arith, len))
          ok in
      let made =
        keep_two-some false u true (registered name pwd d) (user_insert mysql u) d _ s.db b r in
      (
        _,
        _,
        reg-inserts (sql_models mysql) library conn js s name pwd _ _ _ n p made,
        refl,
        login-offline mysql tables server library conn' js' _ _ _ (registered name pwd d) i p' refl
            lt
            (ap (λ (t : Tables). find_user (registered name pwd d).id t.users) t
              ∙ find_user-append _ (tables d).users (registered name pwd d) refl fresh)
            refl,
      )

  -- Where the server can be reached, the update succeeds and the keys of the table of connections are
  -- distinct: after a logout with the number of a user, whatever the user's state was, the user has no
  -- connection, and is let in again with the password.
  pub logout-logs_in :
      (conn conn' : Conn) (js js' : Json) (s : Service (sql_models mysql) library) (d : mysql.State)
      (id : ℤ) (u : User)
      → s.db ≡ some d
      → IsConnMap s.user_conn_map
      → get_int js (codes "id") ≡ some id
      → succeeds mysql (update_state_sql (record default_user { id = id })) d ≡ true
      → IsInt id
      → find_user id (tables d).users ≡ some u
      → get_int js' (codes "id") ≡ some id
      → get_string js' (codes "password") ≡ some u.password
      → (s' : Service (sql_models mysql) library) × (d' : mysql.State) × (logout
            (sql_models mysql)
            library
            conn
            js
            s
          ≡ some s')
        × (find id s'.user_conn_map ≡ none)
        × (login (sql_models mysql) library conn' js' s'
            ≡ some (
                login_success
                  (sql_models mysql)
                  library
                  conn'
                  id
                  (with_state (codes "offline") u)
                  (record s' { db = some d' })))
  logout-logs_in conn conn' js js' s d id u b m e ok h found e' p =
      let off = record default_user { id = id } in
      let (r, t) =
        update_state-succeeds mysql tables server off d h offline-IsLiteral (omega arith) ok in
      (
        _,
        _,
        logs_out (sql_models mysql) library conn js s id e,
        find-erase id s.user_conn_map m,
        login-offline mysql tables server library conn' js' _ _ id (with_state (codes "offline") u)
            e' p
            (ap (λ (q : Bool × Option mysql.State). q.1)
              (keep-some false true (update_state mysql off) d _ s.db b r))
            h
            (ap (λ (t : Tables). find_user id t.users) t
              ∙ find_user-map (set_state id (codes "offline")) (set_state-id id (codes "offline"))
                  id (tables d).users u found
              ∙ ap some (set_state_self id u (codes "offline") (find_user-id id _ u found)))
            refl,
      )
