-- ===== src/ChatServer/Service/Receive.antt =====
-- Messages of the client as the server receives them, ChatServer/src/server/chatserver.cpp.
use cpp_tiny_lab.Base.{refl, ◌≡◌, ◌∙◌, true, some, List, [], ◌∷◌, ◌++◌, map}
use cpp_tiny_lab.Base.Bytes.{Bytes, codes}
use cpp_tiny_lab.Base.Int.{ℤ}
use cpp_tiny_lab.ChatServer.{
  one_chat_msg, group_chat_msg, reg_msg, login_msg, default_user, User, Group,
}
use cpp_tiny_lab.ChatServer.Json.{JsonLibrary, IsJson, Fields, lookup, as_int, as_string}
use cpp_tiny_lab.ChatServer.Answers.{registered_fields, answer_fields, friend_text, group_text}
use cpp_tiny_lab.ChatServer.Service.Online.{accepts, login-accepted}
use cpp_tiny_lab.ChatServer.Models.{Models}
use cpp_tiny_lab.ChatServer.Service.{
  Conn, Service, handle, on_message, receive, reg, send, login, login_success, take_offline, insert,
}
use cpp_tiny_lab.ChatServer.Service.Delivery.{delivered, one_chat-delivered, group_chat-delivered}

module _ (models : Models) (library : JsonLibrary) (json : IsJson library) where
  open models use {
    Db, query_gropu_users, user_insert, user_query, update_state, friend_query, query_groups,
  }
  open library use {is_utf8, dump, object}
  open json use {parse-dump, get_int-object, get_string-object}

  pub receive-one_chat :
      (conn : Conn) (fields : Fields) (s : Service models library) (id : ℤ)
      → is_utf8 fields ≡ true
      → as_int (lookup (codes "msgid") fields) ≡ some one_chat_msg
      → as_int (lookup (codes "to") fields) ≡ some id
      → receive models library conn (dump (object fields)) s
        ≡ some (delivered models library (id ∷ []) (dump (object fields)) s)
  unfolding receive on_message handle
  receive-one_chat conn fields s id u m t =
      rw
        (parse-dump fields u, get_int-object fields (codes "msgid"), m, receive, on_message, handle)
        (one_chat-delivered models library conn (object fields) s id
          (get_int-object fields (codes "to") ∙ t))

  pub receive-group_chat :
      (conn : Conn) (fields : Fields) (s : Service models library) (id groupid : ℤ)
      → is_utf8 fields ≡ true
      → as_int (lookup (codes "msgid") fields) ≡ some group_chat_msg
      → as_int (lookup (codes "id") fields) ≡ some id
      → as_int (lookup (codes "groupid") fields) ≡ some groupid
      → receive models library conn (dump (object fields)) s
        ≡ some (
            delivered models library
              (query_gropu_users id groupid s.db).0
              (dump (object fields))
              (record s { db = (query_gropu_users id groupid s.db).1 }))
  unfolding receive on_message handle
  receive-group_chat conn fields s id groupid u m i g =
      rw
        (parse-dump fields u, get_int-object fields (codes "msgid"), m, receive, on_message, handle)
        (group_chat-delivered models library conn (object fields) s id groupid
          (get_int-object fields (codes "id") ∙ i) (get_int-object fields (codes "groupid") ∙ g))

  -- A registration, with its answer.
  pub receive-reg :
      (conn : Conn) (fields : Fields) (s : Service models library) (name pwd : Bytes)
      → is_utf8 fields ≡ true
      → as_int (lookup (codes "msgid") fields) ≡ some reg_msg
      → as_string (lookup (codes "name") fields) ≡ some name
      → as_string (lookup (codes "password") fields) ≡ some pwd
      → let made = user_insert (record default_user { name = name; password = pwd }) s.db in
        receive models library conn (dump (object fields)) s
        ≡ some (record s {
          db = made.2;
          sent = s.sent ++ (conn, dump (object (registered_fields made.0 made.1.id))) ∷ [];
        })
  unfolding receive on_message handle reg send
  receive-reg conn fields s name pwd u m n w =
      rw
        (
          parse-dump fields u,
          get_int-object fields (codes "msgid"),
          m,
          get_string-object fields (codes "name"),
          n,
          get_string-object fields (codes "password"),
          w,
          receive,
          on_message,
          handle,
          reg,
        )
        refl

  receive-login :
      (conn : Conn) (fields : Fields) (s : Service models library)
      → is_utf8 fields ≡ true
      → as_int (lookup (codes "msgid") fields) ≡ some login_msg
      → receive models library conn (dump (object fields)) s
        ≡ login models library conn (object fields) s
  unfolding receive on_message handle
  receive-login conn fields s u m =
      rw
        (parse-dump fields u, get_int-object fields (codes "msgid"), m, receive, on_message, handle)
        refl

  -- What the database answers in a login that it accepts, in order: the user, the stored messages,
  -- the friends and the groups.
  module _ (id : ℤ) (db : Db) where
    abbrev pub the_user : User × Db
    the_user = user_query id db

    abbrev pub the_messages : List Bytes × Db
    the_messages =
        take_offline models library id
          (update_state (record the_user.0 { state = codes "online" }) the_user.1).1

    abbrev pub the_friends : List User × Db
    the_friends = friend_query id the_messages.1

    abbrev pub the_groups : List Group × Db
    the_groups = query_groups id the_friends.1

    abbrev pub the_answer : Fields
    the_answer =
        answer_fields the_user.0 the_messages.0 (map (friend_text library) the_friends.0)
          (map (group_text library) the_groups.0)

  -- A login that is accepted, with its answer.
  pub receive-login_accepted :
      (conn : Conn) (fields : Fields) (s : Service models library) (id : ℤ) (pwd : Bytes)
      → is_utf8 fields ≡ true
      → as_int (lookup (codes "msgid") fields) ≡ some login_msg
      → as_int (lookup (codes "id") fields) ≡ some id
      → as_string (lookup (codes "password") fields) ≡ some pwd
      → accepts id pwd (the_user id s.db).0 ≡ true
      → receive models library conn (dump (object fields)) s
        ≡ some (record s {
          user_conn_map = insert id conn s.user_conn_map;
          db = (the_groups id s.db).1;
          sent = s.sent ++ (conn, dump (object (the_answer id s.db))) ∷ [];
        })
  unfolding login_success send
  receive-login_accepted conn fields s id pwd u m i w a =
      receive-login conn fields s u m
      ∙ login-accepted models library conn (object fields) s id pwd
          (get_int-object fields (codes "id") ∙ i) (get_string-object fields (codes "password") ∙ w)
          a

  pub receive-object :
      (conn : Conn) (fields : Fields) (s : Service models library)
      → is_utf8 fields ≡ true
      → receive models library conn (dump (object fields)) s
        ≡ on_message models library conn (object fields) s
  unfolding receive
  receive-object conn fields s u = rw (parse-dump fields u, receive) refl
