-- ===== src/ChatServer/Models/Sql/Rows.antt =====
-- What the database sends back, as ChatServer/src/server/model/ reads it.
use cpp_tiny_lab.Base.{
  ◌≡◌, refl, ap, Bool, ◌∙◌, true, Option, some, List, [], ◌∷◌, All, map, read_all,
}
use cpp_tiny_lab.Base.Bytes.{Bytes}
use cpp_tiny_lab.Base.Int.{ℤ}
use cpp_tiny_lab.Base.Numerals.{IsInt, atoi-decimal_ℤ}
use cpp_tiny_lab.ChatServer.{User, default_user}
use cpp_tiny_lab.ChatServer.Models.Database.{Row, Mysql, query, sprintf_sql}
use cpp_tiny_lab.ChatServer.Models.Statements.{user_query_sql, query_gropu_users_sql}
use cpp_tiny_lab.ChatServer.Models.Tables.{row_of_user, row_of_id}
use cpp_tiny_lab.ChatServer.Models.Sql.{
  user_of_row, first_user, id_of_row, read_rows, do_query, user_query, query_gropu_users,
}
use cpp_tiny_lab.ChatServer.Models.Sql.Bounds.{fits-user_query, fits-query_gropu_users}

pub user_of_row-row_of_user : (u : User) → IsInt u.id → user_of_row (row_of_user u) ≡ some u
unfolding user_of_row
user_of_row-row_of_user u h = rw (atoi-decimal_ℤ u.id h, user_of_row) refl

id_of_row-row_of_id : (id : ℤ) → IsInt id → id_of_row (row_of_id id) ≡ some id
unfolding id_of_row
id_of_row-row_of_id id h = rw (atoi-decimal_ℤ id h, id_of_row) refl

pub read_rows-ids :
    (ids : List ℤ) → All IsInt ids → read_rows id_of_row (some (map row_of_id ids)) ≡ some ids
unfolding read_rows read_all
read_rows-ids [] h = refl
read_rows-ids (id ∷ ids) h = rw (id_of_row-row_of_id id h.0, read_rows-ids ids h.1) refl

module _ (mysql : Mysql) where
  open mysql use {State, real_connect, mysql_query, use_result, close}

  pub do_query-rows {ℓ} :
      {A : Type ℓ} (sql : Bytes) (otherwise a : A) (read : Option (List Row) → Option A)
      (s s1 s3 : State) (rows : Option (List Row))
      → sprintf_sql sql ≡ some sql
      → real_connect s ≡ (true, s1)
      → query mysql sql s1 ≡ (rows, s3)
      → read rows ≡ some a
      → do_query mysql sql otherwise read s ≡ some (a, close s3)
  unfolding do_query
  do_query-rows sql otherwise a read s s1 s3 rows f c q r = rw (f, c, q, r, do_query) refl

  query-rows :
      (sql : Bytes) (s1 s2 s3 : State) (rows : Option (List Row))
      → mysql_query sql s1 ≡ (true, s2)
      → use_result s2 ≡ (rows, s3)
      → query mysql sql s1 ≡ (rows, s3)
  query-rows sql s1 s2 s3 rows q r = ap (λ (p : Bool × State). use_result p.1) q ∙ r

  -- Where the server can be reached and answers the statement of `UserModel::query` with the row of a
  -- user, and more rows or none, the method returns that user.
  pub user_query-row :
      (id : ℤ) (user : User) (rows : List Row) (s s1 s2 s3 : State)
      → IsInt id
      → IsInt user.id
      → real_connect s ≡ (true, s1)
      → mysql_query (user_query_sql id) s1 ≡ (true, s2)
      → use_result s2 ≡ (some (row_of_user user ∷ rows), s3)
      → user_query mysql id s ≡ some (user, close s3)
  unfolding user_query first_user
  user_query-row id user rows s s1 s2 s3 hi hu c q r =
      do_query-rows (user_query_sql id) default_user user first_user s s1 s3 _
        (fits-user_query id hi) c (query-rows _ s1 s2 s3 _ q r) (user_of_row-row_of_user user hu)

  -- Where the server can be reached and answers the statement of `queryGropuUsers` with the rows of
  -- some ids, the method returns those ids, in that order.
  pub query_gropu_users-rows :
      (userid groupid : ℤ) (ids : List ℤ) (s s1 s2 s3 : State)
      → IsInt userid
      → IsInt groupid
      → All IsInt ids
      → real_connect s ≡ (true, s1)
      → mysql_query (query_gropu_users_sql userid groupid) s1 ≡ (true, s2)
      → use_result s2 ≡ (some (map row_of_id ids), s3)
      → query_gropu_users mysql userid groupid s ≡ some (ids, close s3)
  unfolding query_gropu_users
  query_gropu_users-rows userid groupid ids s s1 s2 s3 hu hg hi c q r =
      do_query-rows (query_gropu_users_sql userid groupid) [] ids (read_rows id_of_row) s s1 s3 _
        (fits-query_gropu_users userid groupid hu hg) c (query-rows _ s1 s2 s3 _ q r)
        (read_rows-ids ids hi)
