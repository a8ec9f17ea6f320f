-- ===== src/ChatServer/Service/Online.antt =====
-- Who is reached after `login`, `logout` and `clinetCloseException`, ChatServer/src/server/chatservice.cpp.
use cpp_tiny_lab.Base.{
  ◌≡◌, ◌≤◌, ◌-◌, refl, Bool, true, false, not, none, some, [], ◌∷◌, ◌++◌, ap, ◌∙◌, if◌then◌else◌,
  ◌&&◌, ◌==◌, arith,
}
use cpp_tiny_lab.Base.Bytes.{Bytes, codes, bytes_eq}
use cpp_tiny_lab.Base.Int.{ℤ, eq_ℤ}
use cpp_tiny_lab.ChatServer.{User, default_user}
use cpp_tiny_lab.ChatServer.Json.{JsonLibrary}
use cpp_tiny_lab.ChatServer.Models.{Models}
use cpp_tiny_lab.ChatServer.Service.{
  Conn, find, insert, erase, Service, send, login_success, login_known, outcome, login, logout,
  deliver, clinet_close_exception,
}
use cpp_tiny_lab.ChatServer.Service.Connections.{
  IsConnMap, users_of, insert-none, insert-some, find-erase, users_of-find, users_of-remove_conn,
  users_of-remove_conn-other, find-head,
}
use cpp_tiny_lab.ChatServer.Service.Delivery.{deliver-none, deliver-some}

-- The user that the database has may log in with the id and the password.
abbrev pub accepts : ℤ → Bytes → User → Bool
accepts id pwd user =
    (eq_ℤ user.id id && bytes_eq user.password pwd) && not (bytes_eq user.state (codes "online"))

-- Of the three answers to a login two are refusals.
refused-if {ℓ} :
    {A : Type ℓ} (answer : Bytes → A) (wrong online : Bytes) (b c : Bool) (a : A)
    → (b && not c) ≡ false
    → (text : Bytes) × ((if b then (if c then answer online else a) else answer wrong)
        ≡ answer text)
refused-if answer wrong online true true a e = (online, refl)
refused-if answer wrong online true false a e = cc
refused-if answer wrong online false c a e = (wrong, refl)

module _ (models : Models) (library : JsonLibrary) where
  open models use {user_query, update_state, offline_insert}
  open library use {Json, get_int, get_string}

  pub login-outcome :
      (conn : Conn) (js : Json) (s : Service models library) (id : ℤ) (pwd : Bytes)
      → get_int js (codes "id") ≡ some id
      → get_string js (codes "password") ≡ some pwd
      → login models library conn js s
        ≡ some (
            outcome models library conn id pwd
              (user_query id s.db).0
              (record s { db = (user_query id s.db).1 }))
  unfolding login
  login-outcome conn js s id pwd e f = rw (e, f, login) refl

  pub outcome-accepted :
      (conn : Conn) (id : ℤ) (pwd : Bytes) (user : User) (s : Service models library)
      → accepts id pwd user ≡ true
      → outcome models library conn id pwd user s ≡ login_success models library conn id user s
  unfolding login_known
  outcome-accepted conn id pwd user s a = ground arith

  outcome-refused :
      (conn : Conn) (id : ℤ) (pwd : Bytes) (user : User) (s : Service models library)
      → accepts id pwd user ≡ false
      → (text : Bytes) × (outcome models library conn id pwd user s
          ≡ send models library conn text s)
  unfolding login_known
  outcome-refused conn id pwd user s a =
      refused-if (λ text. send models library conn text s) _ _
        (eq_ℤ user.id id && bytes_eq user.password pwd) (bytes_eq user.state (codes "online"))
        (login_success models library conn id user s) a

  pub login-accepted :
      (conn : Conn) (js : Json) (s : Service models library) (id : ℤ) (pwd : Bytes)
      → get_int js (codes "id") ≡ some id
      → get_string js (codes "password") ≡ some pwd
      → accepts id pwd (user_query id s.db).0 ≡ true
      → login models library conn js s
        ≡ some (
            login_success models library conn id
              (user_query id s.db).0
              (record s { db = (user_query id s.db).1 }))
  login-accepted conn js s id pwd e f a =
      login-outcome conn js s id pwd e f ∙ ap some (outcome-accepted conn id pwd _ _ a)

  pub login_success-map :
      (conn : Conn) (id : ℤ) (user : User) (s : Service models library)
      → (login_success models library conn id user s).user_conn_map ≡ insert id conn s.user_conn_map
  unfolding login_success send
  login_success-map conn id user s = refl

  -- A login that the user's data accept, of a user without an entry in the table, succeeds, and a
  -- message to the user then goes to the new connection.
  pub login-reaches :
      (conn : Conn) (js : Json) (s : Service models library) (id : ℤ) (pwd message : Bytes)
      → get_int js (codes "id") ≡ some id
      → get_string js (codes "password") ≡ some pwd
      → accepts id pwd (user_query id s.db).0 ≡ true
      → find id s.user_conn_map ≡ none
      → (s' : Service models library) × (login models library conn js s ≡ some s')
        × (deliver models library id message s'
            ≡ record s' { sent = s'.sent ++ (conn, message) ∷ [] })
  login-reaches conn js s id pwd message e f a absent = (
    _,
    login-accepted conn js s id pwd e f a,
    deliver-some models library id conn message _ (
        ap (find id) (login_success-map conn id _ _ ∙ insert-none id conn s.user_conn_map absent)
        ∙ find-head id conn s.user_conn_map),
  )

  -- If the table still has an older connection of the user, such a login succeeds too, and a message
  -- to the user then goes to the older connection.
  pub login-stale :
      (conn old : Conn) (js : Json) (s : Service models library) (id : ℤ) (pwd message : Bytes)
      → get_int js (codes "id") ≡ some id
      → get_string js (codes "password") ≡ some pwd
      → accepts id pwd (user_query id s.db).0 ≡ true
      → find id s.user_conn_map ≡ some old
      → (s' : Service models library) × (login models library conn js s ≡ some s')
        × (deliver models library id message s'
            ≡ record s' { sent = s'.sent ++ (old, message) ∷ [] })
  login-stale conn old js s id pwd message e f a there = (
    _,
    login-accepted conn js s id pwd e f a,
    deliver-some models library id old message _ (
        ap (find id) (login_success-map conn id _ _ ∙ insert-some id conn old s.user_conn_map there)
        ∙ there),
  )

  -- A login with its fields that the user's data refuse, by the id, the password or the state, sends
  -- one text, on its own connection, and leaves the table and what the database has after the query.
  pub login-refused :
      (conn : Conn) (js : Json) (s : Service models library) (id : ℤ) (pwd : Bytes)
      → get_int js (codes "id") ≡ some id
      → get_string js (codes "password") ≡ some pwd
      → accepts id pwd (user_query id s.db).0 ≡ false
      → (text : Bytes) × (login models library conn js s
          ≡ some (record s { db = (user_query id s.db).1; sent = s.sent ++ (conn, text) ∷ [] }))
  unfolding send
  login-refused conn js s id pwd e f a =
      let (text, o) =
        outcome-refused conn id pwd (user_query id s.db).0
          (record s { db = (user_query id s.db).1 }) a in
      (text, login-outcome conn js s id pwd e f ∙ ap some o)

  abbrev logged_out : ℤ → Service models library → Service models library
  logged_out id s = record s {
    user_conn_map = erase id s.user_conn_map;
    db = (update_state (record default_user { id = id }) s.db).1;
  }

  logout_lem :
      (conn : Conn) (js : Json) (s : Service models library) (id : ℤ)
      → get_int js (codes "id") ≡ some id
      → logout models library conn js s ≡ some (logged_out id s)
  unfolding logout
  logout_lem conn js s id e = rw (e, logout) refl

  -- A logout with an id succeeds, and where the keys of the table are distinct a message to the user
  -- is then stored.
  pub logout-reaches :
      (conn : Conn) (js : Json) (s : Service models library) (id : ℤ) (message : Bytes)
      → get_int js (codes "id") ≡ some id
      → IsConnMap s.user_conn_map
      → (s' : Service models library) × (logout models library conn js s ≡ some s')
        × (deliver models library id message s'
            ≡ record s' { db = offline_insert id message s'.db })
  logout-reaches conn js s id message e m = (
    _,
    logout_lem conn js s id e,
    deliver-none models library id message _ (find-erase id s.user_conn_map m),
  )

  -- When a connection is closed, the table has one user of it less, none if it had none, and as many
  -- users of every other connection as before.
  pub close-users_of :
      (conn other : Conn) (s : Service models library)
      → users_of other (clinet_close_exception models library conn s).user_conn_map
        ≡ users_of other s.user_conn_map - (if conn == other then 1 else 0)
  unfolding clinet_close_exception
  close-users_of conn other s = ground (
    arith,
    users_of-remove_conn conn s.user_conn_map,
    users_of-remove_conn-other conn other s.user_conn_map,
  )

  -- If the table has one user at most of the connection that is closed, no user is found with it then.
  pub close-find :
      (conn : Conn) (s : Service models library) (id : ℤ)
      → users_of conn s.user_conn_map ≤ 1
      → ¬ (find id (clinet_close_exception models library conn s).user_conn_map ≡ some conn)
  close-find conn s id one e = ground (arith, close-users_of conn conn s, users_of-find id _ conn e)
