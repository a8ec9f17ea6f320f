-- ===== src/ChatServer/Talk/Login.antt =====
-- A login from the client through the server and back, ChatServer/src.
use cpp_tiny_lab.Base.{read_all, ◌>>=◌, ◌≡◌, refl, ap, true, some, List, [], ◌∷◌, ◌++◌, All}
use cpp_tiny_lab.Base.Bytes.{Bytes, bytes_eq}
use cpp_tiny_lab.Base.Int.{ℤ}
use cpp_tiny_lab.ChatServer.Answers.{friend_fields}
use cpp_tiny_lab.ChatServer.Json.{JsonLibrary, IsJson}
use cpp_tiny_lab.ChatServer.Models.{Models}
use cpp_tiny_lab.ChatServer.Service.{Conn, Service, insert, receive}
use cpp_tiny_lab.ChatServer.Service.Online.{accepts}
use cpp_tiny_lab.ChatServer.Service.Receive.{
  the_user, the_messages, the_friends, the_groups, the_answer, receive-login_accepted,
}
use cpp_tiny_lab.ChatServer.Client.{Client, chatting}
use cpp_tiny_lab.ChatServer.Client.Commands.{login_choice, login_fields, get_start, main_step}
use cpp_tiny_lab.ChatServer.Client.Commands.LoginOrder.{get_start-login, sent_login-enters}
use cpp_tiny_lab.ChatServer.Client.Responses.{offline_line, read_task_handler}
use cpp_tiny_lab.ChatServer.Client.Responses.Reading.{IsGroupText}

module _ (models : Models) (library : JsonLibrary) (json : IsJson library) where
  open library use {is_utf8, dump, object}

  -- What the database answers in the login is UTF-8, and the stored messages can be read.
  pub record IsReadable (id : ℤ) (db : models.Db) (lines : List Bytes) : Type 0 where
    pub answer : is_utf8 (the_answer models library json id db) ≡ true
    pub friends :
        All (λ u. is_utf8 (friend_fields u) ≡ true) (the_friends models library json id db).0
    pub groups : All (IsGroupText library) (the_groups models library json id db).0
    pub messages :
        read_all (offline_line library) (the_messages models library json id db).0 ≡ some lines

  -- Where the library keeps its promises, the texts are UTF-8, the stored messages can be read and no
  -- post of the semaphore is left over: the choice to log in sends one text; the server, if it accepts
  -- the user, records the connection, unless the table has the user, and answers on it, once; and the
  -- client that goes on to wait, and receives the answer then, comes to the chat menu with the id and
  -- the name of that user.
  pub login-shown :
      (id : ℤ) (pwd : Bytes) (lines : List Bytes) (c : Client) (conn : Conn)
      (s : Service models library)
      → c.rwsem ≡ 0
      → is_utf8 (login_fields id pwd) ≡ true
      → accepts id pwd (the_user models library json id s.db).0 ≡ true
      → IsReadable id s.db lines
      → (b a : Bytes) × (d : Client) × ((get_start library (login_choice id pwd) c).sent
          ≡ c.sent ++ b ∷ [])
        × (receive models library conn b s
            ≡ some (record s {
              user_conn_map = insert id conn s.user_conn_map;
              db = (the_groups models library json id s.db).1;
              sent = s.sent ++ (conn, a) ∷ [];
            }))
        × ((main_step (get_start library (login_choice id pwd) c)
              >>= read_task_handler library a
              >>= main_step)
            ≡ some d)
        × (d.pc ≡ chatting)
        × (d.current_user.id ≡ (the_user models library json id s.db).0.id)
        × (d.current_user.name ≡ (the_user models library json id s.db).0.name)
  unfolding bytes_eq
  login-shown id pwd lines c conn s w u a r =
      let b = dump (object (login_fields id pwd)) in
      let begun = get_start-login library json id pwd c w in
      let (d, run, pc, own, name, sent) =
        sent_login-enters library json (the_user models library json id s.db).0
          (the_messages models library json id s.db).0 lines
          (the_friends models library json id s.db).0 (the_groups models library json id s.db).0
          (record c { sent = c.sent ++ b ∷ [] }) r.answer r.friends r.groups r.messages in
      (
        b,
        dump (object (the_answer models library json id s.db)),
        d,
        ap (λ (k : Client). k.sent) begun,
        receive-login_accepted models library json conn (login_fields id pwd) s id pwd u refl refl
            refl a,
        rw begun run,
        pc,
        own,
        name,
      )
