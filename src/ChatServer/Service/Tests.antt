-- ===== src/ChatServer/Service/Tests.antt =====
-- The service of ChatServer/src/server/chatservice.cpp at small inputs, over a database in memory.
use cpp_tiny_lab.Base.{◌≡◌, refl, [], ◌∷◌}
use cpp_tiny_lab.Base.Bytes.{codes, bytes_eq}
use cpp_tiny_lab.Base.Int.{pos}
use cpp_tiny_lab.ChatServer.Json.{int}
use cpp_tiny_lab.ChatServer.Json.Objects.{objects}
use cpp_tiny_lab.ChatServer.Models.Memory.{memory}
use cpp_tiny_lab.ChatServer.Service.{
  find, Service, send, deliver, one_chat, handle, on_message, clinet_close_exception,
}
use cpp_tiny_lab.ChatServer.Service.Connections.{users_of}
use cpp_tiny_lab.ChatServer.Service.Round.{IsAnswer, on_message-IsAnswer}
use cpp_tiny_lab.ChatServer.Service.Online.{close-users_of}

abbrev two_online : Service memory objects
two_online = record { user_conn_map = (pos 1, 7) ∷ (pos 3, 9) ∷ []; db = []; sent = [] }

-- Users 1 and 2 have logged in on one connection.
abbrev shared_conn : Service memory objects
shared_conn = record two_online { user_conn_map = (pos 1, 7) ∷ (pos 2, 7) ∷ [] }

on_message-IsAnswer_example :
    IsAnswer memory objects 7 two_online (record two_online { sent = (9, codes "message") ∷ [] })
unfolding on_message handle one_chat deliver send find bytes_eq
on_message-IsAnswer_example =
    on_message-IsAnswer memory objects 7
      ((codes "msgid", int (pos 6)) ∷ (codes "to", int (pos 3)) ∷ []) two_online
      (record two_online { sent = (9, codes "message") ∷ [] }) refl

close-users_of_example :
    users_of 7 (clinet_close_exception memory objects 7 shared_conn).user_conn_map ≡ 1
close-users_of_example = close-users_of memory objects 7 7 shared_conn
