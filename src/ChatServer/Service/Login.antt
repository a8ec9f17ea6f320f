-- ===== src/ChatServer/Service/Login.antt =====
-- The accepted branch of `ChatService::login`, ChatServer/src/server/chatservice.cpp, a step for each
-- call, with the other threads of the server between the steps.
pub mod Exactly
use cpp_tiny_lab.Base.{
  ℕ, zero, suc, arith, ◌≡◌, refl, Bool, true, false, none, some, List, [], ◌∷◌, ◌++◌, map, ap, sym,
  ◌∙◌,
}
use cpp_tiny_lab.Base.Bytes.{Bytes, codes}
use cpp_tiny_lab.Base.Int.{ℤ}
use cpp_tiny_lab.ChatServer.{User, Group}
use cpp_tiny_lab.ChatServer.Json.{JsonLibrary}
use cpp_tiny_lab.ChatServer.Models.{Models}
use cpp_tiny_lab.ChatServer.Answers.{answer_fields, friend_text, group_text}
use cpp_tiny_lab.ChatServer.Service.{
  Conn, find, insert, Service, send, dump_object, take_offline, login_success, deliver,
}

-- Where the thread stands: before the lock that records the connection, before each call to the
-- database, with what was read so far, before the answer, and behind it.
pub data LoginPc : Type 0 where
  recording updating reading_offline : LoginPc
  removing : List Bytes → LoginPc
  reading_friends : List Bytes → LoginPc
  reading_groups : List Bytes → List User → LoginPc
  answering : List Bytes → List User → List Group → LoginPc
  answered : LoginPc

module _ (models : Models) (library : JsonLibrary) (conn : Conn) (id : ℤ) (user : User) where
  open models use {Db, update_state, offline_query, offline_remove, friend_query, query_groups}

  -- The messages are removed if there were any.
  unfoldable pub after_offline : List Bytes → LoginPc
  after_offline [] = reading_friends []
  after_offline (m ∷ ms) = removing (m ∷ ms)

  unfoldable pub login_step : LoginPc → Service models library → LoginPc × Service models library
  unfolding after_offline
  login_step recording s = (updating, record s { user_conn_map = insert id conn s.user_conn_map })
  login_step updating s = (
    reading_offline,
    record s { db = (update_state (record user { state = codes "online" }) s.db).1 },
  )
  login_step reading_offline s =
      (after_offline (offline_query id s.db).0, record s { db = (offline_query id s.db).1 })
  login_step (removing messages) s =
      (reading_friends messages, record s { db = offline_remove id s.db })
  login_step (reading_friends messages) s =
      (reading_groups messages (friend_query id s.db).0, record s { db = (friend_query id s.db).1 })
  login_step (reading_groups messages friends) s = (
    answering messages friends (query_groups id s.db).0,
    record s { db = (query_groups id s.db).1 },
  )
  login_step (answering messages friends groups) s = (
    answered,
    send models library conn
        (dump_object models library (
          answer_fields user messages (map (friend_text library) friends)
            (map (group_text library) groups)))
        s,
  )
  login_step answered s = (answered, s)

  -- The thread by itself, `n` steps of it.
  pub alone : ℕ → LoginPc × Service models library → LoginPc × Service models library
  alone zero p = p
  alone (suc n) p = alone n (login_step p.0 p.1)

  -- Without the other threads, seven steps do what the handler does in one.
  pub alone-login_success :
      (s : Service models library)
      → alone 7 (recording, s) ≡ (answered, login_success models library conn id user s)
  unfolding alone login_step login_success take_offline
  alone-login_success s = ground arith
