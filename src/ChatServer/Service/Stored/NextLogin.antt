-- ===== src/ChatServer/Service/Stored/NextLogin.antt =====
-- A message to a user who is offline, up to the answer of the next login, over the tables of the
-- database, ChatServer/src/server/chatservice.cpp.
use cpp_tiny_lab.Base.{
  ◌+◌, ◌≤◌, ◌≡◌, refl, ap, ◌∙◌, true, false, Option, none, some, List, [], ◌∷◌, ◌++◌, map, arith,
  length, if◌then◌else◌,
}
use cpp_tiny_lab.Base.Bytes.{Bytes, codes, bytes_eq, count}
use cpp_tiny_lab.Base.Int.{ℤ, eq_ℤ, eq_ℤ_iff}
use cpp_tiny_lab.Base.Numerals.{IsInt}
use cpp_tiny_lab.ChatServer.{User, Group}
use cpp_tiny_lab.ChatServer.Answers.{answer_fields, friend_text, group_text}
use cpp_tiny_lab.ChatServer.Json.{JsonLibrary}
use cpp_tiny_lab.ChatServer.Models.Database.{Mysql}
use cpp_tiny_lab.ChatServer.Models.Statements.{
  user_query_sql, offline_insert_sql, offline_remove_sql,
}
use cpp_tiny_lab.ChatServer.Models.Sql.{sql_models, keep, update_state, friend_query, query_groups}
use cpp_tiny_lab.ChatServer.Models.Sql.Methods.{
  succeeds, written, asked, asked-tables, find_user-id,
}
use cpp_tiny_lab.ChatServer.Models.Sql.Messages.{offline_insert-succeeds, update_state-messages}
use cpp_tiny_lab.ChatServer.Models.Sql.Joins.{friend_query-reads, query_groups-reads}
use cpp_tiny_lab.ChatServer.Models.Tables.{
  Tables, find_user, times, with_state, IsLiteral, IsServer,
}
use cpp_tiny_lab.ChatServer.Service.{
  Conn, find, Service, send, take_offline, one_chat, login, login_success,
}
use cpp_tiny_lab.ChatServer.Service.Stored.{keep-some, login-offline}
use cpp_tiny_lab.ChatServer.Service.Stored.Inbox.{
  times-append, stores, IsTaken, take_offline-IsInbox,
}

module _ (mysql : Mysql) (tables : mysql.State → Tables) (server : IsServer mysql tables)
    (library : JsonLibrary) where
  open library use {Json, get_int, get_string, dump, object}

  keep-after :
      {A : Type 0} (otherwise a : A) (f : mysql.State → Option (A × mysql.State))
      (d d' : mysql.State) (o : Option mysql.State)
      → o ≡ some d
      → f d ≡ some (a, d')
      → (keep otherwise f o).1 ≡ some d'
  keep-after {A} otherwise a f d d' o b e =
      ap (λ (p : A × Option mysql.State). p.1) (keep-some otherwise a f d d' o b e)

  -- What an accepted login answers with, and what it leaves of the messages.
  login_success-answers :
      (conn : Conn) (id : ℤ) (u : User) (s : Service (sql_models mysql) library) (d : mysql.State)
      → s.db ≡ some d
      → IsInt id
      → u.id ≡ id
      → ((d : mysql.State) → succeeds mysql (offline_remove_sql id) d ≡ true)
      → (messages : List Bytes) × (friends : List User) × (groups : List Group) × (d' : mysql.State)
        × ((login_success (sql_models mysql) library conn id u s).sent
            ≡ s.sent
              ++ (
                conn,
                dump (
                    object (
                      answer_fields u messages
                        (map (friend_text library) friends)
                        (map (group_text library) groups))),
              )
                ∷ [])
        × ((login_success (sql_models mysql) library conn id u s).db ≡ some d')
        × IsTaken mysql tables server library id d messages d'
  unfolding login_success send
  login_success-answers conn id u s d b h i drops =
      let models = sql_models mysql in
      let online = with_state (codes "online") u in
      let (ok, d1, q1, t1) =
        update_state-messages mysql tables server online d (rw i h) (omega arith) (omega arith) in
      let o1 = (models.update_state online s.db).1 in
      let e1 = keep-after false ok (update_state mysql online) d d1 s.db b q1 in
      let (messages, d2, q2, (c, k)) =
        take_offline-IsInbox mysql tables server library id d1 h (drops _) in
      let taken = ap (take_offline models library id) e1 ∙ q2 in
      let o2 = (take_offline models library id o1).1 in
      let e2 = ap (λ (p : List Bytes × Option mysql.State). p.1) taken in
      let (friends, d3, q3, t3) = friend_query-reads mysql tables server id d2 h in
      let e3 = keep-after [] friends (friend_query mysql id) d2 d3 o2 e2 q3 in
      let o3 = (models.friend_query id o2).1 in
      let (groups, d4, q4, t4) = query_groups-reads mysql tables server id d3 h in
      let e4 = keep-after [] groups (query_groups mysql id) d3 d4 o3 e3 q4 in
      (
        messages,
        (models.friend_query id o2).0,
        (models.query_groups id o3).0,
        d4,
        ap
            (λ (p : List Bytes × Option mysql.State).
              s.sent
              ++ (
                conn,
                dump (
                    object (
                      answer_fields u p.0 (map (friend_text library) (models.friend_query id o2).0)
                        (map (group_text library) (models.query_groups id o3).0))),
              )
                ∷ [])
            taken,
        e4,
        (
          λ m. c m ∙ ap (λ ms. times id ms m) t1,
          λ j m.
              ap (λ (t : Tables). times j t.messages m) (t4 ∙ t3)
              ∙ k j m
              ∙ ap (λ ms. if eq_ℤ id j then 0 else times j ms m) t1,
        ),
      )

  -- Where the server can be reached, stores this message and removes the user's messages when it is
  -- told to: a chat message of 973 bytes at most, without a NUL, a quote or a backslash, to a user who
  -- has no connection and is offline sends nothing; the next login with the user's password succeeds,
  -- with one text, an answer in which the messages are, each as often, that message and what was
  -- stored for the user before; and nothing of it stays in the table of messages, where the messages
  -- of the others stay as they were.
  pub stored-answered :
      (conn conn' : Conn) (js js' : Json) (s : Service (sql_models mysql) library) (d : mysql.State)
      (id : ℤ) (u : User)
      → s.db ≡ some d
      → get_int js (codes "to") ≡ some id
      → find id s.user_conn_map ≡ none
      → IsLiteral (dump js)
      → length (dump js) ≤ 973
      → succeeds mysql (offline_insert_sql id (dump js)) d ≡ true
      → get_int js' (codes "id") ≡ some id
      → get_string js' (codes "password") ≡ some u.password
      → IsInt id
      → find_user id (tables d).users ≡ some u
      → u.state ≡ codes "offline"
      → ((d : mysql.State) → succeeds mysql (offline_remove_sql id) d ≡ true)
      → (s1 : Service (sql_models mysql) library) × (s2 : Service (sql_models mysql) library)
        × (messages : List Bytes) × (friends : List User) × (groups : List Group)
        × (d2 : mysql.State) × (one_chat (sql_models mysql) library conn js s ≡ some s1)
        × (s1.sent ≡ s.sent)
        × (login (sql_models mysql) library conn' js' s1 ≡ some s2)
        × (s2.sent
            ≡ s1.sent
              ++ (
                conn',
                dump (
                    object (
                      answer_fields u messages
                        (map (friend_text library) friends)
                        (map (group_text library) groups))),
              )
                ∷ [])
        × (s2.db ≡ some d2)
        × ((m : Bytes)
            → count m messages
              ≡ times id (tables d).messages m + (if bytes_eq (dump js) m then 1 else 0))
        × ((j : ℤ) (m : Bytes)
            → times j (tables d2).messages m
              ≡ (if eq_ℤ id j then 0 else times j (tables d).messages m))
  stored-answered conn conn' js js' s d id u b to away l len ok e f h found off drops =
      let (r, t) = offline_insert-succeeds mysql tables server id (dump js) d h l len ok in
      let d1 = written mysql (offline_insert_sql id (dump js)) d in
      let s1 = record s { db = some d1 } in
      let same : tables (asked mysql (user_query_sql id) d1) ≡ tables d1 =
        asked-tables mysql tables server _ d1 in
      let stored = λ (j : ℤ) (m : Bytes).
        ap (λ (t : Tables). times j t.messages m) (same ∙ t)
        ∙ times-append j id (dump js) m (tables d).messages in
      let (messages, friends, groups, d2, out, b2, (c, k)) =
        login_success-answers conn' id u
          (record s { db = some (asked mysql (user_query_sql id) d1) })
          (asked mysql (user_query_sql id) d1) refl h (find_user-id id _ u found) drops in
      (
        s1,
        _,
        messages,
        friends,
        groups,
        d2,
        stores mysql tables server library conn js s d _ id to away b r,
        refl,
        login-offline mysql tables server library conn' js' s1 d1 id u e f refl h
            (ap (λ (t : Tables). find_user id t.users) t ∙ found) off,
        out,
        b2,
        λ m. c m ∙ stored id m ∙ (rw ((eq_ℤ_iff id id).1 refl) refl),
        λ j m. k j m ∙ ground (arith, stored j m),
      )
