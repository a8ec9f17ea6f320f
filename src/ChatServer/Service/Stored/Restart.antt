-- ===== src/ChatServer/Service/Stored/Restart.antt =====
-- A server that is interrupted and started again, over the tables of the database,
-- ChatServer/src/server/main.cpp.
use cpp_tiny_lab.Base.{ℕ, ◌≡◌, refl, ap, ◌∙◌, true, ◌⊎◌, Option, some, List}
use cpp_tiny_lab.Base.Bytes.{Bytes, codes}
use cpp_tiny_lab.Base.Int.{ℤ}
use cpp_tiny_lab.Base.Numerals.{IsInt}
use cpp_tiny_lab.ChatServer.{User}
use cpp_tiny_lab.ChatServer.Json.{JsonLibrary}
use cpp_tiny_lab.ChatServer.Main.{arguments, Event, started, serve, reset_handler, server_main}
use cpp_tiny_lab.ChatServer.Models.{Models}
use cpp_tiny_lab.ChatServer.Models.Database.{Mysql}
use cpp_tiny_lab.ChatServer.Models.Statements.{reset_state_sql}
use cpp_tiny_lab.ChatServer.Models.Sql.{sql_models, reset_state}
use cpp_tiny_lab.ChatServer.Models.Sql.Methods.{succeeds, reset_state-succeeds}
use cpp_tiny_lab.ChatServer.Models.Tables.{Tables, find_user, with_state, set_offline, IsServer}
use cpp_tiny_lab.ChatServer.Service.{Conn, Service, login, login_success, reset}
use cpp_tiny_lab.ChatServer.Service.Stored.{login-offline}
use cpp_tiny_lab.ChatServer.Service.Stored.Users.{find_user-map, set_offline-id, set_offline-enum}

module _ (models : Models) (library : JsonLibrary) where
  interrupted :
      (args : List Bytes) (address : Bytes × ℕ) (db : models.Db) (events : List Event)
      (s : Service models library)
      → arguments args ≡ some address
      → serve models library events (started models library db) ≡ some s
      → server_main models library args db events ≡ some (reset_handler models library s)
  unfolding server_main
  interrupted args address db events s a run = rw (a, server_main) (rw run refl)

module _ (mysql : Mysql) (library : JsonLibrary) where
  reset-db :
      (s : Service (sql_models mysql) library) (d : mysql.State)
      → s.db ≡ some d
      → (reset (sql_models mysql) library s).db ≡ some (reset_state mysql d)
  unfolding reset
  reset-db s d b = rw b refl

module _ (mysql : Mysql) (tables : mysql.State → Tables) (server : IsServer mysql tables)
    (library : JsonLibrary) where
  open library use {Json, get_int, get_string}

  -- Where the server can be reached and the statement of the reset succeeds: when the program has been
  -- started with an address, has come through any requests and connections, and is interrupted, then
  -- in a program that is started after it every user of the table, online or offline before, is let
  -- in with the password, as a user who was offline.
  pub server_main-logs_in :
      (args : List Bytes) (address : Bytes × ℕ) (db : Option mysql.State) (events : List Event)
      (s : Service (sql_models mysql) library) (d : mysql.State) (conn : Conn) (js : Json) (id : ℤ)
      (u : User)
      → arguments args ≡ some address
      → serve (sql_models mysql) library events (started (sql_models mysql) library db) ≡ some s
      → s.db ≡ some d
      → succeeds mysql reset_state_sql d ≡ true
      → IsInt id
      → find_user id (tables d).users ≡ some u
      → (u.state ≡ codes "online") ⊎ (u.state ≡ codes "offline")
      → get_int js (codes "id") ≡ some id
      → get_string js (codes "password") ≡ some u.password
      → (db' : Option mysql.State) × (d' : mysql.State) × (server_main
            (sql_models mysql)
            library
            args
            db
            events
          ≡ some db')
        × (login (sql_models mysql) library conn js (started (sql_models mysql) library db')
            ≡ some (
                login_success
                  (sql_models mysql)
                  library
                  conn
                  id
                  (with_state (codes "offline") u)
                  (record (started (sql_models mysql) library db') { db = some d' })))
  server_main-logs_in args address db events s d conn js id u a run b ok h found st e p =
      let (r, t) = reset_state-succeeds mysql tables server d ok in
      (
        reset_handler (sql_models mysql) library s,
        _,
        interrupted (sql_models mysql) library args address db events s a run,
        login-offline mysql tables server library conn js
            (started (sql_models mysql) library (reset_handler (sql_models mysql) library s)) _ id
            (with_state (codes "offline") u) e p (reset-db mysql library s d b ∙ ap some r) h
            (ap (λ (t : Tables). find_user id t.users) t
              ∙ find_user-map set_offline set_offline-id id (tables d).users u found
              ∙ ap some (set_offline-enum u st))
            refl,
      )
