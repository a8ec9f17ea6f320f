-- ===== src/ChatServer/Service/Login/Exactly.antt =====
-- What becomes of the messages to a user while the user logs in, ChatServer/src/server/chatservice.cpp.
use cpp_tiny_lab.Base.{
  ℕ, ◌+◌, ◌≡◌, arith, Option, none, some, List, [], ◌∷◌, ◌++◌, ap, sym, ◌∙◌, subst, if◌then◌else◌,
  ◌==◌, ◌&&◌,
}
use cpp_tiny_lab.Base.Bytes.{Bytes, codes, bytes_eq, count}
use cpp_tiny_lab.Base.Int.{ℤ}
use cpp_tiny_lab.ChatServer.{User, Group}
use cpp_tiny_lab.ChatServer.Json.{JsonLibrary}
use cpp_tiny_lab.ChatServer.Models.{Models}
use cpp_tiny_lab.ChatServer.Service.{Conn, find, Service, deliver}
use cpp_tiny_lab.ChatServer.Service.Connections.{insert-none, find-head}
use cpp_tiny_lab.ChatServer.Service.Delivery.{deliver-none, deliver-some}
use cpp_tiny_lab.ChatServer.Service.Login.{
  LoginPc, recording, updating, reading_offline, removing, reading_friends, reading_groups,
  answering, answered, login_step, after_offline,
}

-- How often a connection was given a text to send.
abbrev pub got : Conn → Bytes → List (Conn × Bytes) → ℕ
got conn m [] = 0
got conn m ((c, x) ∷ xs) = (if c == conn && bytes_eq x m then 1 else 0) + got conn m xs

got-append :
    (conn : Conn) (m : Bytes) (xs ys : List (Conn × Bytes))
    → got conn m (xs ++ ys) ≡ got conn m xs + got conn m ys
got-append conn m [] ys = omega arith
got-append conn m ((c, x) ∷ xs) ys = omega (arith, got-append conn m xs ys)

-- What an accepted login of the user relies on of a database in a good state, for messages that it
-- can store: `stored db m` says how often the message `m` is stored for the user, each call of the
-- login changes what it names and nothing else, and the database stays good.
pub record IsStore (models : Models) (id : ℤ) (user : User) (IsUp : models.Db → Type 0)
    (IsPlain : Bytes → Type 0) (stored : models.Db → Bytes → ℕ) : Type 0 where
  pub inserts :
      (m : Bytes) (db : models.Db)
      → IsPlain m
      → IsUp db
      → IsUp (models.offline_insert id m db)
        × ((k : Bytes)
            → stored (models.offline_insert id m db) k
              ≡ stored db k + (if bytes_eq m k then 1 else 0))
  pub removes :
      (db : models.Db)
      → IsUp db
      → IsUp (models.offline_remove id db)
        × ((k : Bytes) → stored (models.offline_remove id db) k ≡ 0)
  pub reads :
      (db : models.Db)
      → IsUp db
      → IsUp (models.offline_query id db).1
        × ((k : Bytes) → count k (models.offline_query id db).0 ≡ stored db k)
        × ((k : Bytes) → stored (models.offline_query id db).1 k ≡ stored db k)
  pub updates :
      (db : models.Db)
      → IsUp db
      → IsUp (models.update_state (record user { state = codes "online" }) db).1
        × ((k : Bytes)
            → stored (models.update_state (record user { state = codes "online" }) db).1 k
              ≡ stored db k)
  pub reads_friends :
      (db : models.Db)
      → IsUp db
      → IsUp (models.friend_query id db).1
        × ((k : Bytes) → stored (models.friend_query id db).1 k ≡ stored db k)
  pub reads_groups :
      (db : models.Db)
      → IsUp db
      → IsUp (models.query_groups id db).1
        × ((k : Bytes) → stored (models.query_groups id db).1 k ≡ stored db k)

module _ (models : Models) (library : JsonLibrary) (IsUp : models.Db → Type 0)
    (IsPlain : Bytes → Type 0) (stored : models.Db → Bytes → ℕ) (conn : Conn) (id : ℤ)
    (user : User) where
  -- The login under way from the state `s`, and the other threads between its steps: they deliver
  -- messages to the user that can be stored, those that the list has, the last one first, or do
  -- something that leaves the user's entry and stored messages, what the connection was given, and a
  -- good database.
  pub data Run (s : Service models library)
      : List Bytes → LoginPc → Service models library → Type 0 where
    begins : Run s [] recording s
    steps :
        {ms : List Bytes} {pc : LoginPc} {t : Service models library}
        → Run s ms pc t
        → Run s ms
            (login_step models library conn id user pc t).0
            (login_step models library conn id user pc t).1
    arrives :
        {ms : List Bytes} {pc : LoginPc} {t : Service models library} (m : Bytes)
        → IsPlain m
        → Run s ms pc t
        → Run s (m ∷ ms) pc (deliver models library id m t)
    elsewhere :
        {ms : List Bytes} {pc : LoginPc} {t : Service models library} (u : Service models library)
        → Run s ms pc t
        → IsUp u.db
        → find id u.user_conn_map ≡ find id t.user_conn_map
        → ((m : Bytes) → stored u.db m ≡ stored t.db m)
        → ((m : Bytes) → got conn m u.sent ≡ got conn m t.sent)
        → Run s ms pc u

  -- The entry of the user, by where the login stands.
  abbrev entry : LoginPc → Option Conn
  entry recording = none
  entry _ = some conn

  -- How often the thread of the login has taken a message over.
  abbrev taken : LoginPc → Bytes → ℕ
  taken (reading_friends messages) m = count m messages
  taken (reading_groups messages friends) m = count m messages
  taken (answering messages friends groups) m = count m messages
  taken _ m = 0

  -- The messages that were read are those that are stored, until they are removed.
  abbrev IsLeft : LoginPc → Service models library → Bytes → Type 0
  IsLeft recording t m = Unit
  IsLeft updating t m = Unit
  IsLeft reading_offline t m = Unit
  IsLeft (removing messages) t m = stored t.db m ≡ count m messages
  IsLeft (reading_friends messages) t m = stored t.db m ≡ 0
  IsLeft (reading_groups messages friends) t m = stored t.db m ≡ 0
  IsLeft (answering messages friends groups) t m = stored t.db m ≡ 0
  IsLeft answered t m = Unit

  abbrev all_of : LoginPc → Service models library → Bytes → ℕ
  all_of pc t m = taken pc m + got conn m t.sent + stored t.db m

  -- Before the answer, each message is where it belongs, as often as it was there or arrived.
  abbrev IsKept :
      Service models library → List Bytes → LoginPc → Service models library → Bytes → Type 0
  IsKept s ms answered t m = Unit
  IsKept s ms pc t m =
      (find id t.user_conn_map ≡ entry pc)
      × IsUp t.db
      × IsLeft pc t m
      × (all_of pc t m ≡ stored s.db m + got conn m s.sent + count m ms)

  module _ (st : IsStore models id user IsUp IsPlain stored) (s : Service models library)
      (k : Bytes) where
    arrives-IsKept :
        (ms : List Bytes) (m : Bytes) (pc : LoginPc) (t : Service models library)
        → IsPlain m
        → IsKept s ms pc t k
        → IsKept s (m ∷ ms) pc (deliver models library id m t) k
    arrives-IsKept ms m answered t p h = tt
    arrives-IsKept ms m recording t p h =
        let (up, adds) = st.inserts m t.db p h.1 in
        subst (λ u. IsKept s (m ∷ ms) recording u k) (sym (deliver-none models library id m t h.0))
          (h.0, up, tt, omega (arith, adds k))
    arrives-IsKept ms m pc t p h =
        subst (λ u. IsKept s (m ∷ ms) pc u k) (sym (deliver-some models library id conn m t h.0))
          (h.0, h.1, h.2, ground (arith, got-append conn k t.sent ((conn, m) ∷ [])))

    elsewhere-IsKept :
        (ms : List Bytes) (pc : LoginPc) (t u : Service models library)
        → IsUp u.db
        → find id u.user_conn_map ≡ find id t.user_conn_map
        → stored u.db k ≡ stored t.db k
        → got conn k u.sent ≡ got conn k t.sent
        → IsKept s ms pc t k
        → IsKept s ms pc u k
    elsewhere-IsKept ms answered t u up e f g h = tt
    elsewhere-IsKept ms (removing messages) t u up e f g h = (e ∙ h.0, up, f ∙ h.2, omega arith)
    elsewhere-IsKept ms (reading_friends messages) t u up e f g h =
        (e ∙ h.0, up, f ∙ h.2, omega arith)
    elsewhere-IsKept ms (reading_groups messages friends) t u up e f g h =
        (e ∙ h.0, up, f ∙ h.2, omega arith)
    elsewhere-IsKept ms (answering messages friends groups) t u up e f g h =
        (e ∙ h.0, up, f ∙ h.2, omega arith)
    elsewhere-IsKept ms pc t u up e f g h = (e ∙ h.0, up, tt, omega arith)

    -- After the query: nothing is to be removed where nothing was read.
    after_offline-IsKept :
        (ms : List Bytes) (messages : List Bytes) (t : Service models library)
        → find id t.user_conn_map ≡ some conn
        → IsUp t.db
        → stored t.db k ≡ count k messages
        → got conn k t.sent + stored t.db k ≡ stored s.db k + got conn k s.sent + count k ms
        → IsKept s ms (after_offline models library conn id user messages) t k
    unfolding after_offline
    after_offline-IsKept ms [] t e up f g = (e, up, f, omega arith)
    after_offline-IsKept ms (m ∷ messages) t e up f g = (e, up, f, omega arith)

    steps-IsKept :
        (ms : List Bytes) (pc : LoginPc) (t : Service models library)
        → IsKept s ms pc t k
        → IsKept s ms
            (login_step models library conn id user pc t).0
            (login_step models library conn id user pc t).1
            k
    unfolding login_step
    steps-IsKept ms recording t h = (
      ap (find id) (insert-none id conn t.user_conn_map h.0) ∙ find-head id conn t.user_conn_map,
      h.1,
      tt,
      h.3,
    )
    steps-IsKept ms updating t h =
        let (up, same) = st.updates t.db h.1 in (h.0, up, tt, omega (arith, same k))
    steps-IsKept ms reading_offline t h =
        let (up, found, same) = st.reads t.db h.1 in
        after_offline-IsKept ms (models.offline_query id t.db).0 _ h.0 up (same k ∙ sym (found k))
          (omega (arith, same k))
    steps-IsKept ms (removing messages) t h =
        let (up, gone) = st.removes t.db h.1 in (h.0, up, gone k, omega (arith, gone k))
    steps-IsKept ms (reading_friends messages) t h =
        let (up, same) = st.reads_friends t.db h.1 in (h.0, up, same k ∙ h.2, omega (arith, same k))
    steps-IsKept ms (reading_groups messages friends) t h =
        let (up, same) = st.reads_groups t.db h.1 in (h.0, up, same k ∙ h.2, omega (arith, same k))
    steps-IsKept ms (answering messages friends groups) t h = tt
    steps-IsKept ms answered t h = tt

    Run-IsKept :
        {ms : List Bytes} {pc : LoginPc} {t : Service models library}
        → IsUp s.db
        → find id s.user_conn_map ≡ none
        → Run s ms pc t
        → IsKept s ms pc t k
    Run-IsKept up e begins = (e, up, tt, omega arith)
    Run-IsKept up e (steps {ms} {pc} {t} r) = steps-IsKept ms pc t (Run-IsKept up e r)
    Run-IsKept up e (arrives {ms} {pc} {t} m p r) = arrives-IsKept ms m pc t p (Run-IsKept up e r)
    Run-IsKept up e (elsewhere {ms} {pc} {t} u r up' f g h) =
        elsewhere-IsKept ms pc t u up' f (g k) (h k) (Run-IsKept up e r)

  -- Where the user has no entry in the table when the login is accepted, and keeps that of the login
  -- until the answer: whatever the other threads do between the calls of the login, each message that
  -- was stored or that arrives is, as often, either in the answer or was sent to the connection, and
  -- none is left stored.
  pub Run-exactly :
      IsStore models id user IsUp IsPlain stored
      → (s : Service models library) → IsUp s.db
      → find id s.user_conn_map ≡ none
      → (ms messages : List Bytes) (friends : List User) (groups : List Group)
        (t : Service models library)
      → Run s ms (answering messages friends groups) t
      → (m : Bytes)
      → (count m messages + got conn m t.sent ≡ stored s.db m + got conn m s.sent + count m ms)
        × IsUp t.db
        × (stored t.db m ≡ 0)
  Run-exactly st s up e ms messages friends groups t r m =
      let h = Run-IsKept st s m up e r in (omega (arith, h.2, h.3), h.1, h.2)
