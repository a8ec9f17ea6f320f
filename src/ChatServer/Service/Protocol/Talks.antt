-- ===== src/ChatServer/Service/Protocol/Talks.antt =====
-- What a handler of ChatServer/src/server/chatservice.cpp may do: it sends what the client can
-- read.
use cpp_tiny_lab.Base.{◌≡◌, refl, sym, ap, subst, List, [], ◌∷◌, ◌++◌, map, append-nil, All}
use cpp_tiny_lab.Base.Bytes.{Bytes}
use cpp_tiny_lab.Base.Int.{ℤ}
use cpp_tiny_lab.ChatServer.Json.{JsonLibrary}
use cpp_tiny_lab.ChatServer.Models.{Models}
use cpp_tiny_lab.ChatServer.Service.{Conn, ConnMap, Service, send, deliver_all}
use cpp_tiny_lab.ChatServer.Service.Delivery.{present, deliver_all-delivered}
use cpp_tiny_lab.ChatServer.Client.Responses.Shapes.{IsChatText, IsReply, relayed}

All-sent :
    (P : Bytes → Type 0) (b : Bytes) (cs : List Conn)
    → P b
    → All (λ (e : Conn × Bytes). P e.1) (map (λ c. (c, b)) cs)
All-sent P b [] h = tt
All-sent P b (c ∷ cs) h = (h, All-sent P b cs h)

module _ (models : Models) (library : JsonLibrary) where
  -- A handler sends what the client can read.
  pub record Talks (s s' : Service models library) : Type 0 where
    pub out : List (Conn × Bytes)
    pub sends : s'.sent ≡ s.sent ++ out
    pub replies : All (λ (e : Conn × Bytes). IsReply library e.1) out

  pub silent :
      (s : Service models library) (m : ConnMap) (db : models.Db)
      → Talks s (record { user_conn_map = m; db = db; sent = s.sent })
  silent s m db = record { out = []; sends = sym (append-nil s.sent); replies = tt }

  pub answers :
      (conn : Conn) (b : Bytes) (s : Service models library) (m : ConnMap) (db : models.Db)
      → IsReply library b
      → Talks s (send models library conn b (record { user_conn_map = m; db = db; sent = s.sent }))
  unfolding send
  answers conn b s m db r = record { out = (conn, b) ∷ []; sends = refl; replies = (r, tt) }

  pub relays :
      (ids : List ℤ) (b : Bytes) (s s' : Service models library)
      → s'.sent ≡ s.sent
      → IsChatText library b
      → Talks s (deliver_all models library ids b s')
  relays ids b s s' e c =
      subst (Talks s) (sym (deliver_all-delivered models library ids b s')) (record {
        out = map (λ c. (c, b)) (present s'.user_conn_map ids);
        sends = ap (λ l. l ++ map (λ c. (c, b)) (present s'.user_conn_map ids)) e;
        replies = All-sent (IsReply library) b (present s'.user_conn_map ids) (relayed c);
      })
