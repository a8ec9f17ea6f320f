-- ===== src/ChatServer/Overrun.antt =====
-- A long message to a user who is offline, through the service and the database of ChatServer/src/server/.
mod Tests
use cpp_tiny_lab.Base.{
  ◌>>=◌, ◌≡◌, ◌≤◌, refl, ap, ◌∙◌, sym, Option, none, some, List, [], ◌∷◌, length,
}
use cpp_tiny_lab.Base.Bytes.{Bytes, codes, IsText}
use cpp_tiny_lab.Base.Int.{ℤ}
use cpp_tiny_lab.ChatServer.Json.{JsonLibrary}
use cpp_tiny_lab.ChatServer.Models.Database.{Mysql}
use cpp_tiny_lab.ChatServer.Models.Sql.{sql_models, offline_insert}
use cpp_tiny_lab.ChatServer.Models.Sql.Bounds.{offline_insert-overrun}
use cpp_tiny_lab.ChatServer.Service.{Conn, Service, find, one_chat}
use cpp_tiny_lab.ChatServer.Service.Delivery.{absent, store, delivered, one_chat-delivered}

module _ (mysql : Mysql) (library : JsonLibrary) where
  open library use {Json, get_int, dump}

  delivered-db :
      (id : ℤ) (message : Bytes) (s : Service (sql_models mysql) library)
      → find id s.user_conn_map ≡ none
      → (delivered (sql_models mysql) library (id ∷ []) message s).db
        ≡ (s.db >>= offline_insert mysql id message)
  delivered-db id message s e = rw (e, absent) refl

  -- A chat message of 984 bytes or more, without a NUL, to a user who has no connection is undefined
  -- behaviour: storing it overruns the array of the statement.
  pub one_chat-overrun :
      (conn : Conn) (js : Json) (s : Service (sql_models mysql) library) (id : ℤ) (d : mysql.State)
      → get_int js (codes "to") ≡ some id
      → find id s.user_conn_map ≡ none
      → s.db ≡ some d
      → IsText (dump js)
      → 984 ≤ length (dump js)
      → (s' : Service (sql_models mysql) library) × (one_chat (sql_models mysql) library conn js s
          ≡ some s')
        × (s'.db ≡ none)
  one_chat-overrun conn js s id d t e b text long = (
    _,
    one_chat-delivered (sql_models mysql) library conn js s id t,
    delivered-db id (dump js) s e
        ∙ ap (λ (o : Option mysql.State). o >>= offline_insert mysql id (dump js)) b
        ∙ offline_insert-overrun mysql id (dump js) d text long,
  )
