-- ===== src/ChatServer/Service/Round.antt =====
-- One message, from `onMessage` to the end of its handler, ChatServer/src/server/chatservice.cpp.
use cpp_tiny_lab.Base.{
  ◌≡◌, ◌<◌, ◌⊎◌, inl, inr, refl, Option, none, some, List, [], ◌∷◌, ◌++◌, map, append-nil, All, ap,
  sym, subst,
}
use cpp_tiny_lab.Base.Bytes.{Bytes, codes, bytes_eq}
use cpp_tiny_lab.Base.Int.{ℤ}
use cpp_tiny_lab.ChatServer.{User}
use cpp_tiny_lab.ChatServer.Json.{JsonLibrary}
use cpp_tiny_lab.ChatServer.Models.{Models}
use cpp_tiny_lab.ChatServer.Service.{
  Conn, ConnMap, find, Service, send, login_success, login_known, login, logout, reg, deliver_all,
  one_chat, add_friend, create_group, add_group, group_chat, handle, on_message,
}
use cpp_tiny_lab.ChatServer.Service.Results.{IfSome, IfSome-bind, IfSome-if, if-both}
use cpp_tiny_lab.ChatServer.Service.Connections.{
  IsConnMap, users_of, insert-IsConnMap, erase-IsConnMap, users_of-find,
}
use cpp_tiny_lab.ChatServer.Service.Delivery.{present, deliver_all-delivered}

-- Sent to the connection that the message came on, or to one of the table.
abbrev pub IsAddressed : Conn → ConnMap → Conn × Bytes → Type 0
IsAddressed conn m e = (e.0 ≡ conn) ⊎ (0 < users_of e.0 m)

listed-step :
    (conn : Conn) (message : Bytes) (m : ConnMap) (id : ℤ) (cs : List Conn) (o : Option Conn)
    → find id m ≡ o
    → All (IsAddressed conn m) (map (λ c. (c, message)) cs)
    → All (IsAddressed conn m) (map (λ c. (c, message)) (elim o [ none ↦ cs | some c ↦ c ∷ cs ]))
listed-step conn message m id cs none e h = h
listed-step conn message m id cs (some c) e h = (inr (users_of-find id m c e), h)

present-listed :
    (conn : Conn) (message : Bytes) (m : ConnMap) (ids : List ℤ)
    → All (IsAddressed conn m) (map (λ c. (c, message)) (present m ids))
present-listed conn message m [] = tt
present-listed conn message m (id ∷ ids) =
    listed-step conn message m id (present m ids) (find id m) refl
      (present-listed conn message m ids)

module _ (models : Models) (library : JsonLibrary) where
  open library use {Json, get_int, get_string, dump}

  -- The messages of `s'` are those of `s` and more, each of them addressed.
  abbrev pub IsAnswer : Conn → Service models library → Service models library → Type 0
  IsAnswer conn s s' =
      (out : List (Conn × Bytes)) × (s'.sent ≡ s.sent ++ out)
      × All (IsAddressed conn s.user_conn_map) out

  -- What every handler does.
  abbrev Round : Conn → Service models library → Service models library → Type 0
  Round conn s s' = (IsConnMap s.user_conn_map → IsConnMap s'.user_conn_map) × IsAnswer conn s s'

  -- A handler that sends nothing.
  silent : (conn : Conn) (s : Service models library) → Round conn s s
  silent conn s = (λ h. h, ([], sym (append-nil s.sent), tt))

  -- A handler that answers on the connection.
  answered :
      (conn : Conn) (text : Bytes) (s s' : Service models library)
      → (IsConnMap s.user_conn_map → IsConnMap s'.user_conn_map)
      → s'.sent ≡ s.sent
      → Round conn s (send models library conn text s')
  unfolding send
  answered conn text s s' m e =
      (m, ((conn, text) ∷ [], ap (λ l. l ++ (conn, text) ∷ []) e, (inl refl, tt)))

  login_known-Round :
      (conn : Conn) (id : ℤ) (user : User) (s s' : Service models library)
      → s'.user_conn_map ≡ s.user_conn_map
      → s'.sent ≡ s.sent
      → Round conn s (login_known models library conn id user s')
  unfolding login_known login_success
  login_known-Round conn id user s s' m e =
      if-both (Round conn s) (bytes_eq user.state (codes "online")) _ _
        (answered conn _ s s' (subst IsConnMap (sym m)) e)
        (answered conn _ s _
          (λ h. insert-IsConnMap id conn s'.user_conn_map (subst IsConnMap (sym m) h)) e)

  delivered-Round :
      (conn : Conn) (ids : List ℤ) (message : Bytes) (s s' : Service models library)
      → s'.user_conn_map ≡ s.user_conn_map
      → s'.sent ≡ s.sent
      → Round conn s (deliver_all models library ids message s')
  delivered-Round conn ids message s s' m e =
      subst (Round conn s) (sym (deliver_all-delivered models library ids message s')) (
        subst IsConnMap (sym m),
        (
          map (λ c. (c, message)) (present s'.user_conn_map ids),
          ap (λ l. l ++ map (λ c. (c, message)) (present s'.user_conn_map ids)) e,
          subst
              (λ t.
                All (IsAddressed conn t) (map (λ c. (c, message)) (present s'.user_conn_map ids)))
              m (present-listed conn message s'.user_conn_map ids),
        ),
      )

  login-Round :
      (conn : Conn) (js : Json) (s : Service models library)
      → IfSome (Round conn s) (login models library conn js s)
  unfolding login IfSome
  login-Round conn js s = IfSome-bind _ (get_int js (codes "id")) _ λ id.
      IfSome-bind _ (get_string js (codes "password")) _ λ pwd.
        if-both (Round conn s) _ _ _ (login_known-Round conn id _ s _ refl refl)
          (answered conn _ s _ (λ h. h) refl)

  logout-Round :
      (conn : Conn) (js : Json) (s : Service models library)
      → IfSome (Round conn s) (logout models library conn js s)
  unfolding logout IfSome
  logout-Round conn js s =
      IfSome-bind _ (get_int js (codes "id")) _
        λ id. (erase-IsConnMap id s.user_conn_map, ([], sym (append-nil s.sent), tt))

  reg-Round :
      (conn : Conn) (js : Json) (s : Service models library)
      → IfSome (Round conn s) (reg models library conn js s)
  unfolding reg IfSome
  reg-Round conn js s = IfSome-bind _ (get_string js (codes "name")) _ λ name.
      IfSome-bind _ (get_string js (codes "password")) _ λ pwd. answered conn _ s _ (λ h. h) refl

  one_chat-Round :
      (conn : Conn) (js : Json) (s : Service models library)
      → IfSome (Round conn s) (one_chat models library conn js s)
  unfolding one_chat deliver_all IfSome
  one_chat-Round conn js s =
      IfSome-bind _ (get_int js (codes "to")) _
        λ id. delivered-Round conn (id ∷ []) (dump js) s s refl refl

  add_friend-Round :
      (conn : Conn) (js : Json) (s : Service models library)
      → IfSome (Round conn s) (add_friend models library conn js s)
  unfolding add_friend IfSome
  add_friend-Round conn js s =
      IfSome-bind _ (get_int js (codes "id")) _
        λ id. IfSome-bind _ (get_int js (codes "friendid")) _ λ friendid. silent conn s

  create_group-Round :
      (conn : Conn) (js : Json) (s : Service models library)
      → IfSome (Round conn s) (create_group models library conn js s)
  unfolding create_group IfSome
  create_group-Round conn js s = IfSome-bind _ (get_int js (codes "id")) _ λ id.
      IfSome-bind _ (get_string js (codes "groupname")) _
        λ name. IfSome-bind _ (get_string js (codes "desc")) _ λ desc. silent conn s

  add_group-Round :
      (conn : Conn) (js : Json) (s : Service models library)
      → IfSome (Round conn s) (add_group models library conn js s)
  unfolding add_group IfSome
  add_group-Round conn js s =
      IfSome-bind _ (get_int js (codes "id")) _
        λ id. IfSome-bind _ (get_int js (codes "groupid")) _ λ groupid. silent conn s

  group_chat-Round :
      (conn : Conn) (js : Json) (s : Service models library)
      → IfSome (Round conn s) (group_chat models library conn js s)
  unfolding group_chat IfSome
  group_chat-Round conn js s = IfSome-bind _ (get_int js (codes "id")) _ λ id.
      IfSome-bind _ (get_int js (codes "groupid")) _
        λ groupid. delivered-Round conn _ (dump js) s _ refl refl

  unknown-Round : (conn : Conn) (s : Service models library) → IfSome (Round conn s) (some s)
  unfolding IfSome
  unknown-Round conn s = silent conn s

  handle-Round :
      (msgid : ℤ) (conn : Conn) (js : Json) (s : Service models library)
      → IfSome (Round conn s) (handle models library msgid conn js s)
  unfolding handle
  handle-Round msgid conn js s =
      let P = Round conn s in
      IfSome-if P _ _ _ (login-Round conn js s) (
        IfSome-if P _ _ _ (logout-Round conn js s) (
          IfSome-if P _ _ _ (reg-Round conn js s) (
            IfSome-if P _ _ _ (one_chat-Round conn js s) (
              IfSome-if P _ _ _ (add_friend-Round conn js s) (
                IfSome-if P _ _ _ (create_group-Round conn js s) (
                  IfSome-if P _ _ _ (add_group-Round conn js s)
                    (IfSome-if P _ _ _ (group_chat-Round conn js s) (unknown-Round conn s))))))))

  on_message-Round :
      (conn : Conn) (js : Json) (s s' : Service models library)
      → on_message models library conn js s ≡ some s'
      → Round conn s s'
  unfolding on_message IfSome
  on_message-Round conn js s s' e =
      subst (IfSome (Round conn s)) e
        (IfSome-bind _ (get_int js (codes "msgid")) _ λ msgid. handle-Round msgid conn js s)

  -- A message that is handled without an exception keeps the keys of the table distinct.
  pub on_message-IsConnMap :
      (conn : Conn) (js : Json) (s s' : Service models library)
      → on_message models library conn js s ≡ some s'
      → IsConnMap s.user_conn_map
      → IsConnMap s'.user_conn_map
  on_message-IsConnMap conn js s s' e h = (on_message-Round conn js s s' e).0 h

  -- A message that is handled without an exception takes back nothing that was sent, and each text
  -- that it sends goes to the connection it came on or to one that was in the table.
  pub on_message-IsAnswer :
      (conn : Conn) (js : Json) (s s' : Service models library)
      → on_message models library conn js s ≡ some s'
      → IsAnswer conn s s'
  on_message-IsAnswer conn js s s' e = (on_message-Round conn js s s' e).1
