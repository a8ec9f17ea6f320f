-- ===== src/ChatServer/Service/Stored/Inbox.antt =====
-- The messages that are stored for a user, as they are stored, read and removed,
-- over the tables of the database, ChatServer/src/server/chatservice.cpp.
use cpp_tiny_lab.Base.{
  ◌+◌, ◌≡◌, refl, ap, ◌∙◌, true, ◌&&◌, Option, none, some, List, [], ◌∷◌, ◌++◌, arith,
  if◌then◌else◌, ◌>>=◌,
}
use cpp_tiny_lab.Base.Bytes.{Bytes, codes, bytes_eq, count}
use cpp_tiny_lab.Base.Int.{ℤ, eq_ℤ, eq_ℤ_iff}
use cpp_tiny_lab.Base.Numerals.{IsInt, decimal_ℤ}
use cpp_tiny_lab.ChatServer.Json.{JsonLibrary}
use cpp_tiny_lab.ChatServer.Models.{Models}
use cpp_tiny_lab.ChatServer.Models.Database.{Mysql}
use cpp_tiny_lab.ChatServer.Models.Statements.{offline_remove_sql, offline_query_sql}
use cpp_tiny_lab.ChatServer.Models.Sql.{sql_models, offline_insert, offline_query}
use cpp_tiny_lab.ChatServer.Models.Sql.Methods.{succeeds, written, asked, asked-tables}
use cpp_tiny_lab.ChatServer.Models.Sql.Messages.{offline_remove-succeeds, offline_query-times}
use cpp_tiny_lab.ChatServer.Models.Tables.{Tables, times, drop_messages, IsServer}
use cpp_tiny_lab.ChatServer.Service.{Conn, find, Service, take_offline, one_chat}
use cpp_tiny_lab.ChatServer.Service.Delivery.{deliver-none}
use cpp_tiny_lab.ChatServer.Service.Stored.{keep-some}

pub times-append :
    (id k : ℤ) (x m : Bytes) (messages : List (ℤ × Bytes))
    → times id (messages ++ (k, x) ∷ []) m
      ≡ times id messages m + (if eq_ℤ k id && bytes_eq x m then 1 else 0)
unfolding times
times-append id k x m [] = omega arith
times-append id k x m ((j, y) ∷ messages) = omega (arith, times-append id k x m messages)

pub times-drop_messages :
    (id j : ℤ) (m : Bytes) (messages : List (ℤ × Bytes))
    → times j (drop_messages id messages) m ≡ (if eq_ℤ id j then 0 else times j messages m)
unfolding times
times-drop_messages id j m [] = ground arith
times-drop_messages id j m ((k, x) ∷ messages) =
    ground (arith, eq_ℤ_iff k id, eq_ℤ_iff id j, eq_ℤ_iff k j, times-drop_messages id j m messages)

module _ (models : Models) (library : JsonLibrary) where
  open models use {
    Db, offline_query as models_offline_query, offline_remove as models_offline_remove,
  }

  pub take_offline-nil :
      (id : ℤ) (db db' : Db)
      → models_offline_query id db ≡ ([], db')
      → take_offline models library id db ≡ ([], db')
  unfolding take_offline
  take_offline-nil id db db' q = rw (q, take_offline) (rw q refl)

  pub take_offline-cons :
      (id : ℤ) (m : Bytes) (ms : List Bytes) (db db' : Db)
      → models_offline_query id db ≡ (m ∷ ms, db')
      → take_offline models library id db ≡ (m ∷ ms, models_offline_remove id db')
  unfolding take_offline
  take_offline-cons id m ms db db' q = rw (q, take_offline) (rw q refl)

module _ (mysql : Mysql) (tables : mysql.State → Tables) (server : IsServer mysql tables)
    (library : JsonLibrary) where
  open library use {Json, get_int, dump}

  pub stores :
      (conn : Conn) (js : Json) (s : Service (sql_models mysql) library) (d d' : mysql.State)
      (id : ℤ)
      → get_int js (codes "to") ≡ some id
      → find id s.user_conn_map ≡ none
      → s.db ≡ some d
      → offline_insert mysql id (dump js) d ≡ some d'
      → one_chat (sql_models mysql) library conn js s ≡ some (record s { db = some d' })
  unfolding one_chat
  stores conn js s d d' id to e b r =
      rw (to, one_chat)
        (ap some (
          deliver-none (sql_models mysql) library id (dump js) s e
          ∙ ap (λ db. record s { db = db })
              (ap (λ (o : Option mysql.State). o >>= offline_insert mysql id (dump js)) b ∙ r)))

  abbrev pub IsTaken : ℤ → mysql.State → List Bytes → mysql.State → Type 0
  IsTaken id d messages d' =
      ((m : Bytes) → count m messages ≡ times id (tables d).messages m)
      × ((j : ℤ) (m : Bytes)
          → times j (tables d').messages m
            ≡ (if eq_ℤ id j then 0 else times j (tables d).messages m))

  -- What reading and removing comes to, where it gets through.
  abbrev pub IsInbox : ℤ → mysql.State → Type 0
  IsInbox id d =
      (messages : List Bytes) × (d' : mysql.State) × (take_offline (sql_models mysql) library id
          (some d)
        ≡ (messages, some d'))
      × IsTaken id d messages d'

  asked_messages :
      (id : ℤ) (d : mysql.State) → tables (asked mysql (offline_query_sql id) d) ≡ tables d
  asked_messages id d =
      asked-tables mysql tables server
        (codes "message from OfflineMessage where userid = " ++ decimal_ℤ id) d

  read-IsInbox :
      (id : ℤ) (d : mysql.State) (ms : List Bytes)
      → IsInt id
      → succeeds mysql (offline_remove_sql id) (asked mysql (offline_query_sql id) d) ≡ true
      → offline_query mysql id d ≡ some (ms, asked mysql (offline_query_sql id) d)
      → ((m : Bytes) → count m ms ≡ times id (tables d).messages m)
      → IsInbox id d
  read-IsInbox id d [] h ok q c = (
    [],
    asked mysql (offline_query_sql id) d,
    take_offline-nil (sql_models mysql) library id (some d) _
        (keep-some [] [] (offline_query mysql id) d _ (some d) refl q),
    (
      c,
      λ j m. ground (
        arith,
        eq_ℤ_iff id j,
        c m,
        ap (λ (t : Tables). times j t.messages m) (asked_messages id d),
      ),
    ),
  )
  read-IsInbox id d (x ∷ ms) h ok q c =
      let (r, t) = offline_remove-succeeds mysql tables server id _ h ok in
      (
        x ∷ ms,
        written mysql (offline_remove_sql id) (asked mysql (offline_query_sql id) d),
        take_offline-cons (sql_models mysql) library id x ms (some d) _
              (keep-some [] (x ∷ ms) (offline_query mysql id) d _ (some d) refl q)
            ∙ ap (λ o. (x ∷ ms, o)) r,
        (
          c,
          λ j m.
              ap (λ (t : Tables). times j t.messages m) t
              ∙ times-drop_messages id j m _
              ∙ ap (λ (t : Tables). if eq_ℤ id j then 0 else times j t.messages m)
                  (asked_messages id d),
        ),
      )

  pub take_offline-IsInbox :
      (id : ℤ) (d : mysql.State)
      → IsInt id
      → succeeds mysql (offline_remove_sql id) (asked mysql (offline_query_sql id) d) ≡ true
      → IsInbox id d
  take_offline-IsInbox id d h ok =
      let (ms, q, c) = offline_query-times mysql tables server id d h in
      read-IsInbox id d ms h ok q c
