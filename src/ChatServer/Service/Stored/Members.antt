-- ===== src/ChatServer/Service/Stored/Members.antt =====
-- Who receives a group message, over the tables of the database,
-- ChatServer/src/server/chatservice.cpp.
use cpp_tiny_lab.Base.{◌≡◌, Bool, true, false, none, some, List, if◌then◌else◌}
use cpp_tiny_lab.Base.Bytes.{Bytes}
use cpp_tiny_lab.Base.Int.{ℤ}
use cpp_tiny_lab.ChatServer.Models.Tables.{Tables, count_id}
use cpp_tiny_lab.ChatServer.Service.{ConnMap, find, Service}
use cpp_tiny_lab.ChatServer.Service.Delivery.{absent}

-- A user who has no connection.
abbrev pub is_absent : ℤ → ConnMap → Bool
is_absent user m = elim (find user m) [ none ↦ true | some conn ↦ false ]

abbrev IsCounted : ℤ → ConnMap → List ℤ → Type 0
IsCounted user m ids =
    count_id user (absent m ids) ≡ (if is_absent user m then count_id user ids else 0)
