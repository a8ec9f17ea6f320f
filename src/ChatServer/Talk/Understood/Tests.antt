-- ===== src/ChatServer/Talk/Understood/Tests.antt =====
-- Requests to a server with a database in memory, ChatServer/src.
use cpp_tiny_lab.Base.{false, some, List, [], ◌∷◌}
use cpp_tiny_lab.Base.Bytes.{Bytes, codes}
use cpp_tiny_lab.Base.Int.{pos}
use cpp_tiny_lab.ChatServer.{login_msg, one_chat_msg, User}
use cpp_tiny_lab.ChatServer.Json.{int, text, Fields}
use cpp_tiny_lab.ChatServer.Json.Coded.{coded, coded-IsJson}
use cpp_tiny_lab.ChatServer.Models.Engine.{Engine, engine}
use cpp_tiny_lab.ChatServer.Models.Sql.{sql_models}
use cpp_tiny_lab.ChatServer.Service.{Service, insert}
use cpp_tiny_lab.ChatServer.Service.Receive.{the_groups, the_answer}
use cpp_tiny_lab.ChatServer.Client.{Client}
use cpp_tiny_lab.ChatServer.Main.{Event, request, connection}

abbrev hello : Fields
hello =
    (codes "msgid", int one_chat_msg)
    ∷ (codes "to", int (pos 2))
    ∷ (codes "time", text (codes "noon"))
    ∷ (codes "name", text (codes "ann"))
    ∷ (codes "msg", text (codes "hi"))
    ∷ []

-- A user who is offline, with a message that is stored.
abbrev hello_text : Bytes
hello_text = coded.dump (coded.object hello)

abbrev ann : User
ann = record { id = pos 2; name = codes "ann"; password = codes "pw"; state = codes "offline" }

abbrev database : Engine
database = record { users = ann ∷ []; messages = (pos 2, hello_text) ∷ []; rows = []; last = 2 }

abbrev server : Service (sql_models engine) coded
server = record { user_conn_map = []; db = some database; sent = [] }

abbrev credentials : Fields
credentials =
    (codes "msgid", int login_msg)
    ∷ (codes "id", int (pos 2))
    ∷ (codes "password", text (codes "pw"))
    ∷ []

abbrev answer_text : Bytes
answer_text =
    coded.dump
      (coded.object (the_answer (sql_models engine) coded coded-IsJson (pos 2) (some database)))

-- The user logs in, and the connection ends.
abbrev logged_in : Service (sql_models engine) coded
logged_in = record server {
  user_conn_map = insert (pos 2) 9 [];
  db = (the_groups (sql_models engine) coded coded-IsJson (pos 2) (some database)).1;
  sent = (9, answer_text) ∷ [];
}

abbrev events : List Event
events = request 9 credentials ∷ connection false 9 ∷ []
