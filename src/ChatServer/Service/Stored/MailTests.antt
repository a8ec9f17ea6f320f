-- ===== src/ChatServer/Service/Stored/MailTests.antt =====
-- A login with messages that arrive while it runs, over a server that keeps its tables in memory.
use cpp_tiny_lab.Base.{some, [], ◌∷◌}
use cpp_tiny_lab.Base.Bytes.{codes}
use cpp_tiny_lab.Base.Int.{pos}
use cpp_tiny_lab.ChatServer.{User}
use cpp_tiny_lab.ChatServer.Json.Objects.{objects}
use cpp_tiny_lab.ChatServer.Models.Engine.{Engine, engine}
use cpp_tiny_lab.ChatServer.Models.Sql.{sql_models}
use cpp_tiny_lab.ChatServer.Service.{Service}

abbrev offline_ann : User
offline_ann = record {
  id = pos 1;
  name = codes "ann";
  password = codes "pw";
  state = codes "offline";
}

abbrev start_db : Engine
start_db = record { users = offline_ann ∷ []; messages = []; rows = []; last = 1 }

abbrev before : Service (sql_models engine) objects
before = record { user_conn_map = []; db = some start_db; sent = [] }

abbrev after_db : Engine
after_db = record start_db { users = record offline_ann { state = codes "online" } ∷ [] }

abbrev after : Service (sql_models engine) objects
after = record { user_conn_map = (pos 1, 7) ∷ []; db = some after_db; sent = (7, codes "b") ∷ [] }
