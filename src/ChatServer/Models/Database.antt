-- ===== src/ChatServer/Models/Database.antt =====
-- `class MySQL`, ChatServer/src/server/db/db.cpp, over the MySQL client library.
use cpp_tiny_lab.Base.{
  ℕ, Bool, Option, none, some, List, [], ◌∷◌, if◌then◌else◌, ◌==◌, ltb, length, get_elem?,
}
use cpp_tiny_lab.Base.Bytes.{Bytes}

-- A row of a result, NULL being `none`.
abbrev pub Row : Type 0
Row = List (Option Bytes)

-- The client library and the server behind it. `real_connect` stands for `mysql_init`,
-- `mysql_real_connect` and the choice of UTF-8, and tells if there is a connection; `mysql_query` tells
-- if it returns 0; `use_result` gives what `mysql_fetch_row` returns until it is null, `none` being a
-- null result; `close` ends the connection.
pub record Mysql : Type 1 where
  pub State : Type 0
  pub real_connect : State → Bool × State
  pub mysql_query : Bytes → State → Bool × State
  pub use_result : State → Option (List Row) × State
  pub insert_id : State → ℕ
  pub close : State → State

module _ (mysql : Mysql) where
  open mysql use {State, real_connect, mysql_query, use_result}

  abbrev pub connect : State → Bool × State
  connect s = real_connect s

  abbrev pub update : Bytes → State → Bool × State
  update sql s = mysql_query sql s

  -- A failure of the statement is only logged.
  abbrev pub query : Bytes → State → Option (List Row) × State
  query sql s = use_result (mysql_query sql s).1

-- `sprintf` into `char sql[1024]`; `none` where the text and its NUL overrun it.
abbrev pub sprintf_sql : Bytes → Option Bytes
sprintf_sql sql = if ltb (length sql) 1024 then some sql else none

-- What `%s` prints of `c_str()`: the text up to its first NUL.
unfoldable pub c_str : Bytes → Bytes
c_str [] = []
c_str (c ∷ s) = let rest = c_str s in if c == 0 then [] else c ∷ rest

-- A column where the source needs a text: NULL there, or no such column, is undefined behaviour.
abbrev pub column : Row → ℕ → Option Bytes
column row i = elim (get_elem? row i) [ none ↦ none | some value ↦ value ]
