-- ===== src/ChatServer/Talk/Relay.antt =====
-- A chat message that lacks a text, from the server to a client, ChatServer/src.
use cpp_tiny_lab.Base.{◌≡◌, none, some, true, [], ◌∷◌}
use cpp_tiny_lab.Base.Bytes.{codes}
use cpp_tiny_lab.Base.Int.{ℤ}
use cpp_tiny_lab.ChatServer.{one_chat_msg}
use cpp_tiny_lab.ChatServer.Json.{JsonLibrary, IsJson, Fields, lookup, as_int}
use cpp_tiny_lab.ChatServer.Models.{Models}
use cpp_tiny_lab.ChatServer.Service.{Conn, Service, receive}
use cpp_tiny_lab.ChatServer.Service.Delivery.{delivered}
use cpp_tiny_lab.ChatServer.Service.Receive.{receive-one_chat}
use cpp_tiny_lab.ChatServer.Client.{Client}
use cpp_tiny_lab.ChatServer.Client.Responses.{read_task_handler}
use cpp_tiny_lab.ChatServer.Client.Responses.Messages.{LacksText, read_task_handler-LacksText}

module _ (models : Models) (library : JsonLibrary) (json : IsJson library) where
  open library use {is_utf8, dump, object}

  -- Where the library keeps its promises, a chat message with a receiver that lacks the time, the
  -- sender's name or the message is delivered by the server as any other, and a client that receives
  -- it ends in an exception of the library.
  pub relay-throws :
      (fields : Fields) (id : ℤ) (conn : Conn) (s : Service models library) (d : Client)
      → is_utf8 fields ≡ true
      → as_int (lookup (codes "msgid") fields) ≡ some one_chat_msg
      → as_int (lookup (codes "to") fields) ≡ some id
      → LacksText fields
      → (receive models library conn (dump (object fields)) s
          ≡ some (delivered models library (id ∷ []) (dump (object fields)) s))
        × (read_task_handler library (dump (object fields)) d ≡ none)
  relay-throws fields id conn s d u m t h = (
    receive-one_chat models library json conn fields s id u m t,
    read_task_handler-LacksText library json fields d u m h,
  )
