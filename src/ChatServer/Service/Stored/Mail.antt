-- ===== src/ChatServer/Service/Stored/Mail.antt =====
-- A login while messages arrive, over the tables of the database,
-- ChatServer/src/server/chatservice.cpp.
use cpp_tiny_lab.Base.{◌≤◌, ◌≡◌, Option, none, some, length, ℕ}
use cpp_tiny_lab.Base.Bytes.{Bytes}
use cpp_tiny_lab.Base.Int.{ℤ}
use cpp_tiny_lab.ChatServer.Models.Database.{Mysql}
use cpp_tiny_lab.ChatServer.Models.Tables.{Tables, times, IsLiteral}
use cpp_tiny_lab.ChatServer.Service.{Service}

-- A text that can be stored as it is: no NUL, no quote, no backslash, 973 bytes at most.
abbrev pub IsPlain : Bytes → Type 0
IsPlain m = IsLiteral m × (length m ≤ 973)

module _ (mysql : Mysql) (tables : mysql.State → Tables) where
  -- The database met no undefined behaviour.
  abbrev pub IsUp : Option mysql.State → Type 0
  IsUp o = (d : mysql.State) × (o ≡ some d)

  -- How often a message is stored for the user.
  abbrev pub stored : ℤ → Option mysql.State → Bytes → ℕ
  stored id none m = 0
  stored id (some d) m = times id (tables d).messages m
