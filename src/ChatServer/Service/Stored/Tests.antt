-- ===== src/ChatServer/Service/Stored/Tests.antt =====
-- The service over a server that keeps its tables in memory.
use cpp_tiny_lab.Base.{
  ◌+◌, ◌≡◌, refl, true, inl, Option, some, List, [], ◌∷◌, ◌++◌, map, arith, if◌then◌else◌,
}
use cpp_tiny_lab.Base.Bytes.{Bytes, codes, bytes_eq, count, span}
use cpp_tiny_lab.Base.Int.{ℤ, pos, eq_ℤ}
use cpp_tiny_lab.Base.Decimal.{decimal, decimal_loop}
use cpp_tiny_lab.Base.Numerals.{to_uint16, decimal_ℤ, atoi}
use cpp_tiny_lab.ChatServer.{User, Group}
use cpp_tiny_lab.ChatServer.Answers.{
  registered_fields, already_online, answer_fields, friend_text, group_text,
}
use cpp_tiny_lab.ChatServer.Json.{Fields, int, text}
use cpp_tiny_lab.ChatServer.Json.Objects.{objects}
use cpp_tiny_lab.ChatServer.Main.{arguments, connection, started, serve, server_main}
use cpp_tiny_lab.ChatServer.Models.Database.{c_str}
use cpp_tiny_lab.ChatServer.Models.Engine.{
  Engine, engine, engine_tables, read_sql, read_text, read_number, execute,
}
use cpp_tiny_lab.ChatServer.Models.Engine.Executing.{engine-IsServer, engine-removes}
use cpp_tiny_lab.ChatServer.Models.Sql.{sql_models}
use cpp_tiny_lab.ChatServer.Models.Tables.{find_user, times, with_state}
use cpp_tiny_lab.ChatServer.Service.{
  find, insert, Service, send, refusal, outcome, login, login_success, on_connect, reg, one_chat,
}
use cpp_tiny_lab.ChatServer.Service.Stored.Accounts.{registered-logs_in}
use cpp_tiny_lab.ChatServer.Service.Stored.Restart.{server_main-logs_in}
use cpp_tiny_lab.ChatServer.Service.Stored.NextLogin.{stored-answered}
use cpp_tiny_lab.ChatServer.Service.Stored.States.{login-twice}
use cpp_tiny_lab.ChatServer.Service.Stored.Races.{login-race}

abbrev ann : User
ann = record { id = pos 1; name = codes "ann"; password = codes "pw"; state = codes "online" }

abbrev nobody : Engine
nobody = record { users = []; messages = []; rows = []; last = 0 }

abbrev one_user : Engine
one_user = record nobody { users = ann ∷ []; last = 1 }

abbrev over : Engine → Service (sql_models engine) objects
over d = record { user_conn_map = []; db = some d; sent = [] }

abbrev credentials : Fields
credentials = (codes "id", int (pos 1)) ∷ (codes "password", text (codes "pw")) ∷ []

abbrev registration : Fields
registration = (codes "name", text (codes "ann")) ∷ (codes "password", text (codes "pw")) ∷ []

registered-logs_in_example :
    (s' : Service (sql_models engine) objects) × (d' : Engine) × (reg
        (sql_models engine)
        objects
        7
        registration
        (over nobody)
      ≡ some s')
    × (s'.sent ≡ (7, objects.dump (registered_fields true (pos 1))) ∷ [])
    × (login (sql_models engine) objects 8 credentials s'
        ≡ some (
            login_success
              (sql_models engine)
              objects
              8
              (pos 1)
              (record ann { state = codes "offline" })
              (record s' { db = some d' })))
unfolding bytes_eq read_sql read_text span execute find_user c_str
registered-logs_in_example =
    registered-logs_in engine engine_tables engine-IsServer objects 7 8 registration credentials
      (over nobody) nobody (codes "ann") (codes "pw") refl refl refl (omega arith) (omega arith)
      (omega arith) refl refl refl

abbrev server_arguments : List Bytes
server_arguments = codes "ChatServer" ∷ codes "127.0.0.1" ∷ codes "6000" ∷ []

-- A user who is online logs in again after the server was stopped.
server_main-logs_in_example :
    (db' : Option Engine) × (d' : Engine) × (server_main
        (sql_models engine)
        objects
        server_arguments
        (some one_user)
        (connection true 7 ∷ [])
      ≡ some db')
    × (login (sql_models engine) objects 8 credentials (started (sql_models engine) objects db')
        ≡ some (
            login_success
              (sql_models engine)
              objects
              8
              (pos 1)
              (with_state (codes "offline") ann)
              (record (started (sql_models engine) objects db') { db = some d' })))
unfolding bytes_eq read_sql read_text read_number span execute find_user arguments to_uint16 atoi
    serve on_connect
server_main-logs_in_example =
    server_main-logs_in engine engine_tables engine-IsServer objects server_arguments
      (codes "127.0.0.1", 6000) (some one_user) (connection true 7 ∷ []) (over one_user) one_user 8
      credentials (pos 1) ann refl refl refl refl (omega arith) refl (inl refl) refl refl

abbrev offline_ann : User
offline_ann = record ann { state = codes "offline" }

abbrev offline_user : Engine
offline_user = record nobody { users = offline_ann ∷ []; last = 1 }

abbrev note : Fields
note = (codes "to", int (pos 1)) ∷ (codes "msg", text (codes "hi")) ∷ []

stored-answered_example :
    (s1 : Service (sql_models engine) objects) × (s2 : Service (sql_models engine) objects)
    × (messages : List Bytes) × (friends : List User) × (groups : List Group) × (d2 : Engine)
    × (one_chat (sql_models engine) objects 7 note (over offline_user) ≡ some s1)
    × (s1.sent ≡ [])
    × (login (sql_models engine) objects 8 credentials s1 ≡ some s2)
    × (s2.sent
        ≡ s1.sent
          ++ (
            8,
            objects.dump (
                objects.object (
                  answer_fields offline_ann messages
                    (map (friend_text objects) friends)
                    (map (group_text objects) groups))),
          )
            ∷ [])
    × (s2.db ≡ some d2)
    × ((m : Bytes)
        → count m messages
          ≡ times (pos 1) offline_user.messages m
            + (if bytes_eq (objects.dump note) m then 1 else 0))
    × ((j : ℤ) (m : Bytes)
        → times j d2.messages m ≡ (if eq_ℤ (pos 1) j then 0 else times j offline_user.messages m))
unfolding bytes_eq read_sql read_text read_number span execute find_user find c_str decimal_ℤ
    decimal decimal_loop atoi
stored-answered_example =
    stored-answered engine engine_tables engine-IsServer objects 7 8 note credentials
      (over offline_user) offline_user (pos 1) offline_ann refl refl refl (omega arith)
      (omega arith) refl refl refl (omega arith) refl refl
      (λ d. engine-removes (pos 1) d (omega arith))

abbrev group_note : Fields
group_note = (codes "id", int (pos 1)) ∷ (codes "groupid", int (pos 4)) ∷ []

login-twice_example :
    (s' : Service (sql_models engine) objects) × (d' : Engine) × (d2 : Engine) × (login
        (sql_models engine)
        objects
        7
        credentials
        (over offline_user)
      ≡ some s')
    × (s'.user_conn_map ≡ insert (pos 1) 7 [])
    × (s'.db ≡ some d')
    × (find_user (pos 1) d'.users ≡ some ann)
    × (login (sql_models engine) objects 8 credentials s'
        ≡ some (
            send
              (sql_models engine)
              objects
              8
              (refusal (sql_models engine) objects 2 already_online)
              (record s' { db = some d2 })))
unfolding bytes_eq read_sql read_text read_number span execute find_user c_str decimal_ℤ decimal
    decimal_loop atoi
login-twice_example =
    login-twice engine engine_tables engine-IsServer objects 7 8 credentials credentials
      (over offline_user) offline_user (pos 1) offline_ann refl refl refl refl refl (omega arith)
      refl refl refl

login-race_example :
    (s' : Service (sql_models engine) objects) × (d' : Engine) × (((sql_models engine).user_query
        (pos 1)
        (some offline_user)).0
      ≡ offline_ann)
    × (login (sql_models engine) objects 8 credentials (over offline_user) ≡ some s')
    × (s'.db ≡ some d')
    × (find_user (pos 1) d'.users ≡ some ann)
    × (outcome (sql_models engine) objects 7 (pos 1) (codes "pw") offline_ann s'
        ≡ login_success (sql_models engine) objects 7 (pos 1) offline_ann s')
    × (find
          (pos 1)
          (login_success (sql_models engine) objects 7 (pos 1) offline_ann s').user_conn_map
        ≡ some 8)
unfolding bytes_eq read_sql read_text read_number span execute find_user c_str decimal_ℤ decimal
    decimal_loop atoi find
login-race_example =
    login-race engine engine_tables engine-IsServer objects 7 8 credentials (over offline_user)
      offline_user (pos 1) offline_ann refl refl refl refl (omega arith) refl refl refl
