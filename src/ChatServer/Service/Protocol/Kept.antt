-- ===== src/ChatServer/Service/Protocol/Kept.antt =====
-- The handlers of ChatServer/src/server/chatservice.cpp send what the client can read.
use cpp_tiny_lab.Base.{◌≡◌, refl, sym, ap, subst, ◌∙◌, Bool, true, false, some, [], ◌∷◌, ◌&&◌}
use cpp_tiny_lab.Base.Bytes.{codes, bytes_eq}
use cpp_tiny_lab.Base.Int.{ℤ, eq_ℤ, eq_ℤ_iff}
use cpp_tiny_lab.ChatServer.{login_msg, one_chat_msg, group_chat_msg}
use cpp_tiny_lab.ChatServer.Answers.{wrong_password, already_online}
use cpp_tiny_lab.ChatServer.Json.{JsonLibrary, IsJson, Fields, lookup, as_int}
use cpp_tiny_lab.ChatServer.Models.{Models}
use cpp_tiny_lab.ChatServer.Service.{
  Conn, erase, Service, send, refusal, login_success, login_known, login, logout, reg, deliver_all,
  one_chat, add_friend, create_group, add_group, group_chat, handle, on_message,
  clinet_close_exception, remove_conn, on_connect,
}
use cpp_tiny_lab.ChatServer.Service.Results.{
  IfSome, IfSome-bind, IfSome-bind_eq, IfSome-if, IfSome-split, if-both,
}
use cpp_tiny_lab.ChatServer.Service.Protocol.{IsRequest, IsWritable, IsReadable, IsServed}
use cpp_tiny_lab.ChatServer.Service.Protocol.Talks.{Talks, silent, answers, relays}
use cpp_tiny_lab.ChatServer.Client.Responses.Shapes.{
  IsChatText, chat, groupchat, refused, registered, accepted,
}

module _ (models : Models) (library : JsonLibrary) (json : IsJson library)
    (words : IsWritable library) where
  open library use {dump, object, get_int, get_string}
  open json use {get_int-object}

  -- The state once the user has been asked for.
  abbrev asked : ℤ → Service models library → Service models library
  asked id s = record s { db = (models.user_query id s.db).1 }

  login_success-Talks :
      (conn : Conn) (id : ℤ) (s : Service models library)
      → IsReadable models library json id s.db
      → Talks models library s
          (login_success models library conn id (models.user_query id s.db).0 (asked id s))
  unfolding login_success
  login_success-Talks conn id s g =
      answers models library conn _ s _ _
        (accepted (models.user_query id s.db).0 _ _ _ g.answer_utf8 g.friends g.groups g.messages)

  login_known-Talks :
      (conn : Conn) (id : ℤ) (s : Service models library)
      → IsReadable models library json id s.db
      → Talks models library s
          (login_known models library conn id (models.user_query id s.db).0 (asked id s))
  unfolding login_known refusal
  login_known-Talks conn id s g =
      if-both (Talks models library s)
        (bytes_eq (models.user_query id s.db).0.state (codes "online"))
        (send models library conn (refusal models library 2 already_online) (asked id s))
        (login_success models library conn id (models.user_query id s.db).0 (asked id s))
        (answers models library conn _ s _ _ (refused 1 already_online words.already_online_utf8))
        (login_success-Talks conn id s g)

  module _ (conn : Conn) (js : library.Json) (s : Service models library) where
    login-Talks :
        ((id : ℤ) → get_int js (codes "id") ≡ some id → IsReadable models library json id s.db)
        → IfSome (Talks models library s) (login models library conn js s)
    unfolding login IfSome refusal
    login-Talks g = IfSome-bind_eq _ (get_int js (codes "id")) _ λ id e.
        IfSome-bind _ (get_string js (codes "password")) _ λ pwd.
          if-both (Talks models library s)
            (eq_ℤ (models.user_query id s.db).0.id id
              && bytes_eq (models.user_query id s.db).0.password pwd)
            (login_known models library conn id (models.user_query id s.db).0 (asked id s))
            (send models library conn (refusal models library 1 wrong_password) (asked id s))
            (login_known-Talks conn id s (g id e))
            (answers models library conn _ s _ _
              (refused 0 wrong_password words.wrong_password_utf8))

    logout-Talks : IfSome (Talks models library s) (logout models library conn js s)
    unfolding logout IfSome
    logout-Talks =
        IfSome-bind _ (get_int js (codes "id")) _
          λ id. silent models library s (erase id s.user_conn_map) _

    reg-Talks : IfSome (Talks models library s) (reg models library conn js s)
    unfolding reg IfSome
    reg-Talks = IfSome-bind _ (get_string js (codes "name")) _ λ name.
        IfSome-bind _ (get_string js (codes "password")) _ λ pwd.
          answers models library conn _ s s.user_conn_map _
            (registered _ _ (words.registered_utf8 _ _))

    add_friend-Talks : IfSome (Talks models library s) (add_friend models library conn js s)
    unfolding add_friend IfSome
    add_friend-Talks = IfSome-bind _ (get_int js (codes "id")) _ λ id.
        IfSome-bind _ (get_int js (codes "friendid")) _
          λ friendid. silent models library s s.user_conn_map _

    create_group-Talks : IfSome (Talks models library s) (create_group models library conn js s)
    unfolding create_group IfSome
    create_group-Talks = IfSome-bind _ (get_int js (codes "id")) _ λ id.
        IfSome-bind _ (get_string js (codes "groupname")) _ λ name.
          IfSome-bind _ (get_string js (codes "desc")) _
            λ desc. silent models library s s.user_conn_map _

    add_group-Talks : IfSome (Talks models library s) (add_group models library conn js s)
    unfolding add_group IfSome
    add_group-Talks = IfSome-bind _ (get_int js (codes "id")) _ λ id.
        IfSome-bind _ (get_int js (codes "groupid")) _
          λ groupid. silent models library s s.user_conn_map _

    one_chat-Talks :
        IsChatText library (dump js)
        → IfSome (Talks models library s) (one_chat models library conn js s)
    unfolding one_chat deliver_all IfSome
    one_chat-Talks c =
        IfSome-bind _ (get_int js (codes "to")) _
          λ id. relays models library (id ∷ []) (dump js) s s refl c

    group_chat-Talks :
        IsChatText library (dump js)
        → IfSome (Talks models library s) (group_chat models library conn js s)
    unfolding group_chat IfSome
    group_chat-Talks c = IfSome-bind _ (get_int js (codes "id")) _ λ id.
        IfSome-bind _ (get_int js (codes "groupid")) _ λ groupid.
          relays models library (models.query_gropu_users id groupid s.db).0 (dump js) s
            (record s { db = (models.query_gropu_users id groupid s.db).1 }) refl c

  unknown-Talks : (s : Service models library) → IfSome (Talks models library s) (some s)
  unfolding IfSome
  unknown-Talks s = silent models library s s.user_conn_map s.db

  handle-Talks :
      (msgid : ℤ) (conn : Conn) (fields : Fields) (s : Service models library)
      → IsRequest library fields
      → as_int (lookup (codes "msgid") fields) ≡ some msgid
      → IsServed models library json fields s.db
      → IfSome (Talks models library s) (handle models library msgid conn (object fields) s)
  unfolding handle
  handle-Talks msgid conn fields s r m g =
      let P = Talks models library s in
      let js = object fields in
      let is = λ (k : ℤ) (e : eq_ℤ msgid k ≡ true). m ∙ ap some ((eq_ℤ_iff msgid k).0 e) in
      IfSome-split P _ _ _
        (λ e.
          login-Talks conn js s
            (λ id i. g id (is login_msg e) (sym (get_int-object fields (codes "id")) ∙ i)))
        (IfSome-if P _ _ _ (logout-Talks conn js s) (
          IfSome-if P _ _ _ (reg-Talks conn js s) (
            IfSome-split P _ _ _
              (λ e.
                let q = is one_chat_msg e in
                one_chat-Talks conn js s (chat fields r.utf8 q (r.of_chat q)))
              (IfSome-if P _ _ _ (add_friend-Talks conn js s) (
                IfSome-if P _ _ _ (create_group-Talks conn js s) (
                  IfSome-if P _ _ _ (add_group-Talks conn js s) (
                    IfSome-split P _ _ _
                      (λ e.
                        let q = is group_chat_msg e in
                        group_chat-Talks conn js s (groupchat fields r.utf8 q (r.of_groupchat q)))
                      (unknown-Talks s))))))))

  pub on_message-Talks :
      (conn : Conn) (fields : Fields) (s s' : Service models library)
      → IsRequest library fields
      → IsServed models library json fields s.db
      → on_message models library conn (object fields) s ≡ some s'
      → Talks models library s s'
  unfolding on_message IfSome
  on_message-Talks conn fields s s' r g e = subst (IfSome (Talks models library s)) e (
      IfSome-bind_eq _ (get_int (object fields) (codes "msgid")) _ λ msgid m.
        handle-Talks msgid conn fields s r (sym (get_int-object fields (codes "msgid")) ∙ m) g)

  pub on_connect-Talks :
      (connected : Bool) (conn : Conn) (s : Service models library)
      → Talks models library s (on_connect models library connected conn s)
  unfolding on_connect clinet_close_exception
  on_connect-Talks true conn s = silent models library s s.user_conn_map s.db
  on_connect-Talks false conn s = silent models library s (remove_conn conn s.user_conn_map).1 _
