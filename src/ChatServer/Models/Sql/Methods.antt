-- ===== src/ChatServer/Models/Sql/Methods.antt =====
-- The methods of ChatServer/src/server/model/ on the tables of a server that can be reached.
use cpp_tiny_lab.Base.{
  All, ℕ, ◌+◌, ◌^◌, ◌<◌, ◌≤◌, ◌≡◌, refl, ap, sym, ◌∙◌, true, Bool, Option, none, some, List, [],
  ◌∷◌, ◌++◌, map, arith, length, if◌then◌else◌,
}
use cpp_tiny_lab.Base.Bytes.{Bytes, codes}
use cpp_tiny_lab.Base.Int.{ℤ, pos, eq_ℤ, eq_ℤ_iff}
use cpp_tiny_lab.Base.Numerals.{IsInt, to_int32}
use cpp_tiny_lab.ChatServer.{User}
use cpp_tiny_lab.ChatServer.Models.Database.{Row, Mysql, sprintf_sql}
use cpp_tiny_lab.ChatServer.Models.Statements.{
  user_insert_sql, user_query_sql, update_state_sql, reset_state_sql, query_gropu_users_sql,
}
use cpp_tiny_lab.ChatServer.Models.Sql.{
  first_user, id_of_row, read_rows, do_update, do_query, do_insert, user_insert, user_query,
  update_state, reset_state, query_gropu_users,
}
use cpp_tiny_lab.ChatServer.Models.Sql.Bounds.{fits-user_query, fits-query_gropu_users}
use cpp_tiny_lab.ChatServer.Models.Sql.Fits.{fits-update_state, fits-user_insert}
use cpp_tiny_lab.ChatServer.Models.Sql.Rows.{do_query-rows, read_rows-ids, user_of_row-row_of_user}
use cpp_tiny_lab.ChatServer.Models.Tables.{
  Tables, find_user, times_member, count_id, set_state, set_offline, IsLiteral, rows_of_user,
  IsServer,
}

pub find_user-id : (id : ℤ) (us : List User) (u : User) → find_user id us ≡ some u → u.id ≡ id
unfolding find_user
find_user-id id [] u e = cc
find_user-id id (v ∷ us) u e = ground (arith, eq_ℤ_iff v.id id, find_user-id id us u)

to_int32-small : (n : ℕ) → n < 2 ^ 31 → to_int32 (pos n) ≡ pos n
unfolding to_int32
to_int32-small n h = ground arith

module _ (mysql : Mysql) where
  open mysql use {State, real_connect, mysql_query, use_result, insert_id, close}

  -- One statement over a connection of its own: if it succeeds, and the states behind it.
  abbrev pub succeeds : Bytes → State → Bool
  succeeds sql s = (mysql_query sql (real_connect s).1).0

  abbrev pub written : Bytes → State → State
  written sql s = close (mysql_query sql (real_connect s).1).1

  abbrev pub asked : Bytes → State → State
  asked sql s = close (use_result (mysql_query sql (real_connect s).1).1).1

  abbrev pub new_id : Bytes → State → ℕ
  new_id sql s = insert_id (mysql_query sql (real_connect s).1).1

  module _ (tables : State → Tables) (server : IsServer mysql tables) where
    pub connected : (s : State) → real_connect s ≡ (true, (real_connect s).1)
    connected s i = (server.connects s i, (real_connect s).1)

    pub done :
        (sql : Bytes) (s : State)
        → succeeds sql s ≡ true
        → mysql_query sql (real_connect s).1 ≡ (true, (mysql_query sql (real_connect s).1).1)
    done sql s e i = (e i, (mysql_query sql (real_connect s).1).1)

    pub asked-tables :
        (rest : Bytes) (s : State) → tables (asked (codes "select " ++ rest) s) ≡ tables s
    asked-tables rest s =
        server.close_keeps _
        ∙ server.result_keeps _
        ∙ server.selects rest _
        ∙ server.connect_keeps s

    pub do_update-succeeds :
        (sql : Bytes) (s : State)
        → sprintf_sql sql ≡ some sql
        → do_update mysql sql s ≡ some (succeeds sql s, written sql s)
    unfolding do_update
    do_update-succeeds sql s f = rw (f, connected s, do_update) refl

    pub do_query-asked {ℓ} :
        {A : Type ℓ} (sql : Bytes) (otherwise a : A) (read : Option (List Row) → Option A)
        (s : State)
        → sprintf_sql sql ≡ some sql
        → read (use_result (mysql_query sql (real_connect s).1).1).0 ≡ some a
        → do_query mysql sql otherwise read s ≡ some (a, asked sql s)
    do_query-asked sql otherwise a read s f r =
        do_query-rows mysql sql otherwise a read s _ _ _ f (connected s) refl r

    -- A user that the table has.
    pub user_query-some :
        (id : ℤ) (u : User) (s : State)
        → IsInt id
        → find_user id (tables s).users ≡ some u
        → user_query mysql id s ≡ some (u, asked (user_query_sql id) s)
    unfolding user_query first_user
    user_query-some id u s h e = do_query-asked _ _ u first_user s (fits-user_query id h) (
        ap first_user (
          server.selects_user id _ h
          ∙ ap (λ (t : Tables). some (rows_of_user (find_user id t.users))) (server.connect_keeps s)
          ∙ ap (λ (o : Option User). some (rows_of_user o)) e)
        ∙ user_of_row-row_of_user u (rw (find_user-id id _ u e) h))

    done_insert :
        (sql : Bytes) (id : ℤ) (s : State)
        → sprintf_sql sql ≡ some sql
        → succeeds sql s ≡ true
        → new_id sql s < 2 ^ 31
        → do_insert mysql sql id s ≡ some (true, pos (new_id sql s), written sql s)
    unfolding do_insert
    done_insert sql id s f e lt =
        (rw (f, connected s, done sql s e, do_insert) refl)
        ∙ ap (λ z. some (true, z, written sql s)) (to_int32-small _ lt)

    -- A new user, with the number that the server made.
    pub user_insert-succeeds :
        (u : User) (s : State)
        → IsLiteral u.name
        → IsLiteral u.password
        → IsLiteral u.state
        → length u.name + (length u.password + length u.state) ≤ 950
        → succeeds (user_insert_sql u) s ≡ true
        → (user_insert mysql u s
            ≡ some (
              true,
              record u { id = pos (new_id (user_insert_sql u) s) },
              written (user_insert_sql u) s,
            ))
          × (new_id (user_insert_sql u) s < 2 ^ 31)
          × (find_user (pos (new_id (user_insert_sql u) s)) (tables s).users ≡ none)
          × (tables (written (user_insert_sql u) s) ≡ record (tables s) {
            users = (tables s).users ++ record u { id = pos (new_id (user_insert_sql u) s) } ∷ [];
          })
    unfolding user_insert
    user_insert-succeeds u s hn hp hs len e =
        let id = pos (new_id (user_insert_sql u) s) in
        let (lt, fresh, t) = server.adds_user u _ _ hn hp hs (done _ s e) in
        (
          rw (done_insert _ u.id s (fits-user_insert u hn hp hs len) e lt) refl,
          lt,
          ap (λ (t : Tables). find_user id t.users) (sym (server.connect_keeps s)) ∙ fresh,
          server.close_keeps _
              ∙ t
              ∙ ap (λ (t : Tables). record t { users = t.users ++ record u { id = id } ∷ [] })
                  (server.connect_keeps s),
        )

    -- The members of a group but one user, in some order.
    pub query_gropu_users-times :
        (user group : ℤ) (s : State)
        → IsInt user
        → IsInt group
        → (ids : List ℤ) × (query_gropu_users mysql user group s
            ≡ some (ids, asked (query_gropu_users_sql user group) s))
          × All IsInt ids
          × ((id : ℤ)
              → count_id id ids
                ≡ (if eq_ℤ id user then 0 else times_member group id (tables s).members))
    unfolding query_gropu_users
    query_gropu_users-times user group s hu hg =
        let (ids, r, a, c) = server.selects_members user group (real_connect s).1 hu hg in
        (
          ids,
          do_query-asked _ [] ids (read_rows id_of_row) s (fits-query_gropu_users user group hu hg)
              (ap (read_rows id_of_row) r ∙ read_rows-ids ids a),
          a,
          λ id.
              c id
              ∙ ap (λ (t : Tables). if eq_ℤ id user then 0 else times_member group id t.members)
                  (server.connect_keeps s),
        )

    -- A new state of a user.
    pub update_state-succeeds :
        (u : User) (s : State)
        → IsInt u.id
        → IsLiteral u.state
        → length u.state ≤ 900
        → succeeds (update_state_sql u) s ≡ true
        → (update_state mysql u s ≡ some (true, written (update_state_sql u) s))
          × (tables (written (update_state_sql u) s)
              ≡ record (tables s) { users = map (set_state u.id u.state) (tables s).users })
    unfolding update_state
    update_state-succeeds u s h l len e = (
      do_update-succeeds (update_state_sql u) s (fits-update_state u h l len)
          ∙ ap (λ b. some (b, written (update_state_sql u) s)) e,
      server.close_keeps _
          ∙ server.updates_state u _ _ h l (done _ s e)
          ∙ ap (λ (t : Tables). record t { users = map (set_state u.id u.state) t.users })
              (server.connect_keeps s),
    )

    -- The states after a reset.
    pub reset_state-succeeds :
        (s : State)
        → succeeds reset_state_sql s ≡ true
        → (reset_state mysql s ≡ written reset_state_sql s)
          × (tables (written reset_state_sql s)
              ≡ record (tables s) { users = map set_offline (tables s).users })
    unfolding reset_state
    reset_state-succeeds s e = (
      rw (connected s, reset_state) refl,
      server.close_keeps _
          ∙ server.resets_states _ _ (done _ s e)
          ∙ ap (λ (t : Tables). record t { users = map set_offline t.users })
              (server.connect_keeps s),
    )
