-- ===== src/ChatServer/Talk/Register.antt =====
-- A registration from the client through the server and back, ChatServer/src.
use cpp_tiny_lab.Base.{◌≡◌, refl, ap, true, some, [], ◌∷◌, ◌++◌, ◌>>=◌, ◌∙◌, Option}
use cpp_tiny_lab.Base.Bytes.{Bytes, bytes_eq}
use cpp_tiny_lab.ChatServer.{default_user}
use cpp_tiny_lab.ChatServer.Answers.{registered_fields}
use cpp_tiny_lab.ChatServer.Json.{JsonLibrary, IsJson}
use cpp_tiny_lab.ChatServer.Models.{Models}
use cpp_tiny_lab.ChatServer.Service.{Conn, Service, receive}
use cpp_tiny_lab.ChatServer.Service.Receive.{receive-reg}
use cpp_tiny_lab.ChatServer.Client.{Client, choosing}
use cpp_tiny_lab.ChatServer.Client.Commands.{register_choice, get_start, main_step}
use cpp_tiny_lab.ChatServer.Client.Commands.Registration.{
  reg_fields, registering, get_start-register, main_step-registered,
}
use cpp_tiny_lab.ChatServer.Client.Responses.{read_task_handler}
use cpp_tiny_lab.ChatServer.Client.Responses.Messages.{
  registered_line, read_task_handler-registered,
}

module _ (models : Models) (library : JsonLibrary) (json : IsJson library) where
  open models use {user_insert}
  open library use {is_utf8, dump, object}

  -- Where the library keeps its promises and the texts are UTF-8, the choice to register sends one
  -- text; the server has the user inserted, with the name and the password, and answers on the same
  -- connection, once; and the client that receives the answer prints the id that the user got, or
  -- that the name is taken, and its main thread is back at the start menu.
  pub register-shown :
      (name pwd : Bytes) (c : Client) (conn : Conn) (s : Service models library)
      → let made = user_insert (record default_user { name = name; password = pwd }) s.db in
        is_utf8 (reg_fields name pwd) ≡ true
        → is_utf8 (registered_fields made.0 made.1.id) ≡ true
        → (b a : Bytes) × ((get_start library (register_choice name pwd) c).sent ≡ c.sent ++ b ∷ [])
          × (receive models library conn b s
              ≡ some (record s { db = made.2; sent = s.sent ++ (conn, a) ∷ [] }))
          × ((read_task_handler library a (get_start library (register_choice name pwd) c)
                >>= main_step)
              ≡ some (record c {
                pc = choosing;
                printed = c.printed ++ registered_line made.0 made.1.id ∷ [];
                sent = c.sent ++ b ∷ [];
              }))
  unfolding bytes_eq
  register-shown name pwd c conn s u v =
      let made = user_insert (record default_user { name = name; password = pwd }) s.db in
      let waits = registering library name pwd c in
      (
        dump (object (reg_fields name pwd)),
        dump (object (registered_fields made.0 made.1.id)),
        ap (λ (k : Client). k.sent) (get_start-register library name pwd c),
        receive-reg models library json conn (reg_fields name pwd) s name pwd u refl refl refl,
        rw (get_start-register library name pwd c) (
            ap (λ (o : Option Client). o >>= main_step)
              (read_task_handler-registered library json made.0 made.1.id waits v)
            ∙ main_step-registered (record c {
              printed = c.printed ++ registered_line made.0 made.1.id ∷ [];
              sent = waits.sent;
            })),
      )
