-- ===== src/ChatServer/Main.antt =====
-- The two main programs, ChatServer/src/server/main.cpp and ChatServer/src/client/main.cpp, and what
-- the server is called with, ChatServer/src/server/chatserver.cpp.
use cpp_tiny_lab.Base.{ℕ, ◌^◌, ◌<◌, ◌≡◌, Bool, Option, none, some, List, [], ◌∷◌, ◌>>=◌, arith}
use cpp_tiny_lab.Base.Bytes.{Bytes}
use cpp_tiny_lab.Base.Int.{pos}
use cpp_tiny_lab.Base.Numerals.{to_uint16, atoi, decimal_ℤ, atoi-decimal_ℤ}
use cpp_tiny_lab.ChatServer.Json.{JsonLibrary, Fields}
use cpp_tiny_lab.ChatServer.Models.{Models}
use cpp_tiny_lab.ChatServer.Client.{Client, client_on_connect}
use cpp_tiny_lab.ChatServer.Service.{Conn, Service, receive, on_connect, reset}

-- The address that the arguments name; `none` where there are too few.
unfoldable pub arguments : List Bytes → Option (Bytes × ℕ)
arguments (program ∷ ip ∷ port ∷ rest) = some (ip, to_uint16 (atoi port))
arguments _ = none

-- A port that is printed in decimal is taken as it is.
arguments-port :
    (program ip : Bytes) (port : ℕ) (rest : List Bytes)
    → port < 2 ^ 16
    → arguments (program ∷ ip ∷ decimal_ℤ (pos port) ∷ rest) ≡ some (ip, port)
unfolding arguments to_uint16
arguments-port program ip port rest h =
    rw (atoi-decimal_ℤ (pos port) (omega (arith, h))) (ground arith)

-- What comes to the server: a request on a connection, or a connection that begins or ends.
pub data Event : Type 0 where
  request : Conn → Fields → Event
  connection : Bool → Conn → Event

module _ (models : Models) (library : JsonLibrary) where
  open models use {Db}

  -- `ChatService::instance`, when the program begins.
  abbrev pub started : Db → Service models library
  started db = record { user_conn_map = []; db = db; sent = [] }

  -- The callbacks of the server, one after the other.
  unfoldable pub serve : List Event → Service models library → Option (Service models library)
  serve [] s = some s
  serve (request conn fields ∷ events) s =
      receive models library conn (library.dump (library.object fields)) s >>= serve events
  serve (connection connected conn ∷ events) s =
      serve events (on_connect models library connected conn s)

  -- The handler of SIGINT, which ends the program, and the database that it leaves.
  abbrev pub reset_handler : Service models library → Db
  reset_handler s = (reset models library s).db

  -- The database after a run that begins with a database and is interrupted behind the events; `none`
  -- where a callback throws.
  unfoldable pub server_main : List Bytes → Db → List Event → Option Db
  server_main args db events = elim (arguments args) [
    | none ↦ some db
    | some address ↦ serve events (started db) >>= λ s. some (reset_handler s)
  ]

-- The client, once the connection is there or has failed.
unfoldable pub client_main : List Bytes → Bool → Client → Client
client_main args connected c = elim (arguments args) [
  | none ↦ c
  | some address ↦ client_on_connect connected c
]
