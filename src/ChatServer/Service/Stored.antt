-- ===== src/ChatServer/Service/Stored.antt =====
-- `ChatService` over the tables of a MySQL server that can be reached, ChatServer/src/server/.
pub mod Users
pub mod Accounts
pub mod Restart
pub mod Inbox
pub mod Mail
pub mod NextLogin
pub mod Members
pub mod States
pub mod Races
mod Tests
mod MailTests
use cpp_tiny_lab.Base.{
  ◌≡◌, refl, ap, ◌∙◌, true, false, not, ◌&&◌, Option, none, some, ◌>>=◌, sym, subst,
}
use cpp_tiny_lab.Base.Bytes.{Bytes, codes, bytes_eq, bytes_eq_iff}
use cpp_tiny_lab.Base.Int.{ℤ, eq_ℤ, eq_ℤ_iff}
use cpp_tiny_lab.Base.Numerals.{IsInt}
use cpp_tiny_lab.ChatServer.{User, default_user}
use cpp_tiny_lab.ChatServer.Answers.{already_online}
use cpp_tiny_lab.ChatServer.Json.{JsonLibrary}
use cpp_tiny_lab.ChatServer.Models.{Models}
use cpp_tiny_lab.ChatServer.Models.Database.{Mysql}
use cpp_tiny_lab.ChatServer.Models.Statements.{user_query_sql}
use cpp_tiny_lab.ChatServer.Models.Sql.{sql_models, keep, keep_two, user_query}
use cpp_tiny_lab.ChatServer.Models.Sql.Methods.{asked, find_user-id, user_query-some}
use cpp_tiny_lab.ChatServer.Models.Tables.{Tables, find_user, IsServer}
use cpp_tiny_lab.ChatServer.Service.{
  Conn, Service, send, refusal, login, login_known, login_success, outcome,
}
use cpp_tiny_lab.ChatServer.Service.Online.{accepts, login-accepted, login-outcome}

pub keep-some {ℓ κ} :
    {A : Type ℓ} {S : Type κ} (otherwise a : A) (f : S → Option (A × S)) (s s' : S) (o : Option S)
    → o ≡ some s
    → f s ≡ some (a, s')
    → keep otherwise f o ≡ (a, some s')
keep-some otherwise a f s s' o d e = rw d (rw (e, keep) refl)

pub keep_two-some {ℓ κ μ} :
    {A : Type ℓ} {B : Type μ} {S : Type κ} (a : A) (b : B) (a' : A) (b' : B)
    (f : S → Option (A × B × S)) (s s' : S) (o : Option S)
    → o ≡ some s
    → f s ≡ some (a', b', s')
    → keep_two a b f o ≡ (a', b', some s')
keep_two-some a b a' b' f s s' o d e = rw d (rw (e, keep_two) refl)

module _ (models : Models) (library : JsonLibrary) where
  open library use {Json, get_int, get_string}

  -- A login where the answer of the query is known.
  login-finds :
      (conn : Conn) (js : Json) (s : Service models library) (id : ℤ) (pwd : Bytes) (u : User)
      (db : models.Db)
      → get_int js (codes "id") ≡ some id
      → get_string js (codes "password") ≡ some pwd
      → models.user_query id s.db ≡ (u, db)
      → accepts id pwd u ≡ true
      → login models library conn js s
        ≡ some (login_success models library conn id u (record s { db = db }))
  login-finds conn js s id pwd u db e f q a =
      login-accepted models library conn js s id pwd e f
        (ap (λ (r : User × models.Db). accepts id pwd r.0) q ∙ a)
      ∙ ap
          (λ (r : User × models.Db).
            some (login_success models library conn id r.0 (record s { db = r.1 })))
          q

  outcome-online :
      (conn : Conn) (id : ℤ) (u : User) (s : Service models library)
      → u.id ≡ id
      → u.state ≡ codes "online"
      → outcome models library conn id u.password u s
        ≡ send models library conn (refusal models library 2 already_online) s
  unfolding login_known bytes_eq
  outcome-online conn id u s e f =
      rw ((eq_ℤ_iff u.id id).1 e, (bytes_eq_iff u.password u.password).1 refl)
        (rw (login_known, f) refl)

  pub login-online :
      (conn : Conn) (js : Json) (s : Service models library) (id : ℤ) (u : User) (db : models.Db)
      → get_int js (codes "id") ≡ some id
      → get_string js (codes "password") ≡ some u.password
      → models.user_query id s.db ≡ (u, db)
      → u.id ≡ id
      → u.state ≡ codes "online"
      → login models library conn js s
        ≡ some (
            send models library conn
              (refusal models library 2 already_online)
              (record s { db = db }))
  login-online conn js s id u db e f q i on =
      login-outcome models library conn js s id u.password e f
      ∙ ap
          (λ (r : User × models.Db).
            some (outcome models library conn id u.password r.0 (record s { db = r.1 })))
          q
      ∙ ap some (outcome-online conn id u (record s { db = db }) i on)

pub accepts-offline :
    (id : ℤ) (u : User) → u.id ≡ id → u.state ≡ codes "offline" → accepts id u.password u ≡ true
unfolding bytes_eq
accepts-offline id u e f =
    rw ((eq_ℤ_iff u.id id).1 e, (bytes_eq_iff u.password u.password).1 refl, f) refl

module _ (mysql : Mysql) (tables : mysql.State → Tables) (server : IsServer mysql tables)
    (library : JsonLibrary) where
  open library use {Json, get_int, get_string}

  -- A user that the table has as offline is let in with the password.
  pub login-offline :
      (conn : Conn) (js : Json) (s : Service (sql_models mysql) library) (d : mysql.State) (id : ℤ)
      (u : User)
      → get_int js (codes "id") ≡ some id
      → get_string js (codes "password") ≡ some u.password
      → s.db ≡ some d
      → IsInt id
      → find_user id (tables d).users ≡ some u
      → u.state ≡ codes "offline"
      → login (sql_models mysql) library conn js s
        ≡ some (
            login_success
              (sql_models mysql)
              library
              conn
              id
              u
              (record s { db = some (asked mysql (user_query_sql id) d) }))
  login-offline conn js s d id u e f b h found off =
      login-finds (sql_models mysql) library conn js s id u.password u _ e f
        (keep-some default_user u (user_query mysql id) d _ s.db b
          (user_query-some mysql tables server id u d h found))
        (accepts-offline id u (find_user-id id _ u found) off)
