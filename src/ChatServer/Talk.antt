-- ===== src/ChatServer/Talk.antt =====
-- A message from one client through the server to another, ChatServer/src.
pub mod Login
pub mod Register
pub mod Relay
pub mod Understood
mod Tests
use cpp_tiny_lab.Base.{◌≡◌, refl, ap, true, some, List, [], ◌∷◌, ◌++◌}
use cpp_tiny_lab.Base.Bytes.{Bytes, codes, bytes_eq}
use cpp_tiny_lab.Base.Int.{ℤ}
use cpp_tiny_lab.Base.Numerals.{IsInt}
use cpp_tiny_lab.ChatServer.Json.{JsonLibrary, IsJson}
use cpp_tiny_lab.ChatServer.Models.{Models}
use cpp_tiny_lab.ChatServer.Service.{Conn, Service, receive}
use cpp_tiny_lab.ChatServer.Service.Delivery.{delivered}
use cpp_tiny_lab.ChatServer.Service.Receive.{receive-one_chat, receive-group_chat}
use cpp_tiny_lab.ChatServer.Client.{Client, print, Tm}
use cpp_tiny_lab.ChatServer.Client.Commands.{chat_fields, groupchat_fields, send_object, run_line}
use cpp_tiny_lab.ChatServer.Client.Commands.Lines.{
  chat_line, groupchat_line, run_line-chat_line, run_line-groupchat_line,
}
use cpp_tiny_lab.ChatServer.Client.Responses.{read_task_handler}
use cpp_tiny_lab.ChatServer.Client.Responses.Messages.{
  message_line, group_message_line, read_task_handler-chat, read_task_handler-groupchat,
}

module _ (models : Models) (library : JsonLibrary) (json : IsJson library) where
  open models use {query_gropu_users}
  open library use {is_utf8, dump, object}

  -- Where the library keeps its promises and the texts are UTF-8, the line `chat:to:msg` of a client
  -- sends one text; the server sends it to the connection of `to`, or stores it, and does nothing
  -- else; and a client that receives it shows the time, the sender's id and name, and `msg`.
  pub chat-shown :
      (tm : Tm) (to : ℤ) (msg : Bytes) (c d : Client) (conn : Conn) (s : Service models library)
      → IsInt to
      → is_utf8 (chat_fields tm c.current_user.id c.current_user.name to msg) ≡ true
      → (b : Bytes) × ((run_line library tm (chat_line to msg) c).sent ≡ c.sent ++ b ∷ [])
        × (receive models library conn b s ≡ some (delivered models library (to ∷ []) b s))
        × (read_task_handler library b d
            ≡ some (print (message_line tm c.current_user.id c.current_user.name msg) d))
  unfolding bytes_eq
  chat-shown tm to msg c d conn s h u =
      let fields = chat_fields tm c.current_user.id c.current_user.name to msg in
      (
        dump (object fields),
        ap (λ (k : Client). k.sent) (run_line-chat_line library tm to msg c h),
        receive-one_chat models library json conn fields s to u refl refl,
        read_task_handler-chat library json tm c.current_user.id c.current_user.name to msg d u,
      )

  -- Likewise the line `groupchat:groupid:msg`, whose text the server delivers to the members that the
  -- query for the group and the sender gives.
  pub groupchat-shown :
      (tm : Tm) (groupid : ℤ) (msg : Bytes) (c d : Client) (conn : Conn)
      (s : Service models library)
      → IsInt groupid
      → is_utf8 (groupchat_fields tm c.current_user.id c.current_user.name groupid msg) ≡ true
      → (b : Bytes) × ((run_line library tm (groupchat_line groupid msg) c).sent ≡ c.sent ++ b ∷ [])
        × (receive models library conn b s
            ≡ some (
                delivered models library
                  (query_gropu_users c.current_user.id groupid s.db).0
                  b
                  (record s { db = (query_gropu_users c.current_user.id groupid s.db).1 })))
        × (read_task_handler library b d
            ≡ some
                (print (group_message_line tm c.current_user.id c.current_user.name groupid msg) d))
  unfolding bytes_eq
  groupchat-shown tm groupid msg c d conn s h u =
      let fields = groupchat_fields tm c.current_user.id c.current_user.name groupid msg in
      (
        dump (object fields),
        ap (λ (k : Client). k.sent) (run_line-groupchat_line library tm groupid msg c h),
        receive-group_chat models library json conn fields s c.current_user.id groupid u refl refl
            refl,
        read_task_handler-groupchat library json tm c.current_user.id c.current_user.name groupid
            msg d u,
      )
