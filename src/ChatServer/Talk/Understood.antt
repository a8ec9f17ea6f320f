-- ===== src/ChatServer/Talk/Understood.antt =====
-- Everything that the server sends while it serves requests, against its clients, ChatServer/src.
mod Tests
use cpp_tiny_lab.Base.{◌>>=◌, ◌≡◌, refl, Bool, Option, some, List, [], ◌∷◌}
use cpp_tiny_lab.Base.Bytes.{Bytes}
use cpp_tiny_lab.ChatServer.Main.{Event, request, connection}
use cpp_tiny_lab.ChatServer.Json.{JsonLibrary, IsJson, Fields}
use cpp_tiny_lab.ChatServer.Models.{Models}
use cpp_tiny_lab.ChatServer.Service.{Service, receive, on_connect}
use cpp_tiny_lab.ChatServer.Service.Protocol.{IsRequest, IsWritable, IsServed}
use cpp_tiny_lab.ChatServer.Service.Protocol.Talks.{Talks}
use cpp_tiny_lab.ChatServer.Client.{Client}

module _ (models : Models) (library : JsonLibrary) (json : IsJson library)
    (words : IsWritable library) where
  -- Each request is one that a client makes, and a login reads texts from the database that a client
  -- can be sent.
  abbrev pub IsGoodRun : List Event → Service models library → Type 0
  IsGoodRun [] s = Unit
  IsGoodRun (request conn fields ∷ events) s =
      IsRequest library fields
      × IsServed models library json fields s.db
      × ((t : Service models library)
          → receive models library conn (library.dump (library.object fields)) s ≡ some t
          → IsGoodRun events t)
  IsGoodRun (connection connected conn ∷ events) s =
      IsGoodRun events (on_connect models library connected conn s)
