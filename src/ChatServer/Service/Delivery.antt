-- ===== src/ChatServer/Service/Delivery.antt =====
-- Who receives a chat message, ChatServer/src/server/chatservice.cpp.
use cpp_tiny_lab.Base.{
  ◌≡◌, refl, Option, none, some, List, [], ◌∷◌, ◌++◌, map, append_assoc, append-nil, ap, sym, ◌∙◌,
}
use cpp_tiny_lab.Base.Bytes.{Bytes, codes}
use cpp_tiny_lab.Base.Int.{ℤ}
use cpp_tiny_lab.ChatServer.Json.{JsonLibrary}
use cpp_tiny_lab.ChatServer.Models.{Models}
use cpp_tiny_lab.ChatServer.Service.{
  Conn, ConnMap, find, Service, deliver, deliver_all, group_chat, one_chat, send,
}

-- The connections of those that have one, in the given order.
abbrev pub present : ConnMap → List ℤ → List Conn
present m [] = []
present m (id ∷ ids) = elim (find id m) [ none ↦ present m ids | some conn ↦ conn ∷ present m ids ]

-- Those that have none.
abbrev pub absent : ConnMap → List ℤ → List ℤ
absent m [] = []
absent m (id ∷ ids) = elim (find id m) [ none ↦ id ∷ absent m ids | some conn ↦ absent m ids ]

module _ (models : Models) (library : JsonLibrary) where
  open models use {Db, offline_insert, query_gropu_users}
  open library use {Json, get_int, dump}

  -- A message is stored for each of the users.
  abbrev pub store : List ℤ → Bytes → Db → Db
  store [] message db = db
  store (id ∷ ids) message db = store ids message (offline_insert id message db)

  -- What a message to the users comes to.
  abbrev pub delivered : List ℤ → Bytes → Service models library → Service models library
  delivered ids message s = record s {
    db = store (absent s.user_conn_map ids) message s.db;
    sent = s.sent ++ map (λ c. (c, message)) (present s.user_conn_map ids);
  }

  pub deliver-none :
      (id : ℤ) (message : Bytes) (s : Service models library)
      → find id s.user_conn_map ≡ none
      → deliver models library id message s ≡ record s { db = offline_insert id message s.db }
  unfolding deliver
  deliver-none id message s e = rw (e, deliver) refl

  pub deliver-some :
      (id : ℤ) (conn : Conn) (message : Bytes) (s : Service models library)
      → find id s.user_conn_map ≡ some conn
      → deliver models library id message s ≡ record s { sent = s.sent ++ (conn, message) ∷ [] }
  unfolding deliver send
  deliver-some id conn message s e = rw (e, deliver) refl

  -- The first of the users is served before the others.
  delivered-step :
      (id : ℤ) (ids : List ℤ) (message : Bytes) (s : Service models library) (o : Option Conn)
      → find id s.user_conn_map ≡ o
      → delivered ids message (deliver models library id message s) ≡ delivered (id ∷ ids) message s
  delivered-step id ids message s none e =
      ap (delivered ids message) (deliver-none id message s e)
      ∙ (rw (e, delivered, present, absent) refl)
  delivered-step id ids message s (some conn) e =
      ap (delivered ids message) (deliver-some id conn message s e)
      ∙ (rw (e, delivered, present, absent, append_assoc) refl)

  pub deliver_all-delivered :
      (ids : List ℤ) (message : Bytes) (s : Service models library)
      → deliver_all models library ids message s ≡ delivered ids message s
  unfolding deliver_all
  deliver_all-delivered [] message s = ap (λ out. record s { sent = out }) (sym (append-nil _))
  deliver_all-delivered (id ∷ ids) message s =
      deliver_all-delivered ids message (deliver models library id message s)
      ∙ delivered-step id ids message s (find id s.user_conn_map) refl

  -- With `store`, `present` and `absent`: a chat message whose `to` is a number goes to that user's
  -- connection if the table has one, and is stored for the user if not; nothing else changes.
  pub one_chat-delivered :
      (conn : Conn) (js : Json) (s : Service models library) (id : ℤ)
      → get_int js (codes "to") ≡ some id
      → one_chat models library conn js s ≡ some (delivered (id ∷ []) (dump js) s)
  unfolding one_chat deliver deliver_all
  one_chat-delivered conn js s id e =
      rw (e, one_chat) (ap some (deliver_all-delivered (id ∷ []) (dump js) s))

  -- A group message with its fields goes, in the order of the members that the query gives, to the
  -- connection of each one that the table has, and is stored, in that order, for each of the others;
  -- the table stays as it was, and nothing else is sent or written.
  pub group_chat-delivered :
      (conn : Conn) (js : Json) (s : Service models library) (id groupid : ℤ)
      → get_int js (codes "id") ≡ some id
      → get_int js (codes "groupid") ≡ some groupid
      → group_chat models library conn js s
        ≡ some (
            delivered
              (query_gropu_users id groupid s.db).0
              (dump js)
              (record s { db = (query_gropu_users id groupid s.db).1 }))
  unfolding group_chat
  group_chat-delivered conn js s id groupid e f =
      rw (e, f, group_chat) (ap some (deliver_all-delivered _ (dump js) _))
