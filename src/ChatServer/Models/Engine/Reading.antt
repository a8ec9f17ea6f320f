-- ===== src/ChatServer/Models/Engine/Reading.antt =====
-- The statements of ChatServer/src/server/model/ as the server in memory reads them.
use cpp_tiny_lab.Base.{ℕ, Option, none, ◌≡◌, refl, true, false, some, [], ◌∷◌, ◌++◌, All, arith}
use cpp_tiny_lab.Base.Bytes.{Bytes, codes, span, span-append, span-All}
use cpp_tiny_lab.Base.Decimal.{decimal, IsDigit, decimal-IsDigit}
use cpp_tiny_lab.Base.Int.{ℤ, pos, negsuc}
use cpp_tiny_lab.Base.Numerals.{IsInt, decimal_ℤ, atoi-decimal_ℤ}
use cpp_tiny_lab.ChatServer.{User}
use cpp_tiny_lab.ChatServer.Models.Statements.{
  user_insert_sql, user_query_sql, update_state_sql, reset_state_sql, offline_insert_sql,
  offline_remove_sql, offline_query_sql, query_gropu_users_sql, friend_query_sql, query_groups_sql,
  group_users_sql,
}
use cpp_tiny_lab.ChatServer.Models.Sql.Fits.{c_str-literal}
use cpp_tiny_lab.ChatServer.Models.Tables.{IsLiteral}
use cpp_tiny_lab.ChatServer.Models.Engine.{
  orelse, read_select_user, read_select_messages, read_select_members, Statement, insert_user,
  select_user, update_user, update_users, insert_message, delete_messages, select_messages,
  select_members, is_number, read_number, is_inside, read_text, read_sql,
}

digits-is_number : (s : Bytes) → All IsDigit s → All (λ c. is_number c ≡ true) s
digits-is_number [] h = tt
digits-is_number (c ∷ s) h = (ground (arith, h.0), digits-is_number s h.1)

decimal_ℤ-is_number : (z : ℤ) → All (λ c. is_number c ≡ true) (decimal_ℤ z)
unfolding decimal_ℤ
decimal_ℤ-is_number (pos n) = digits-is_number (decimal n) (decimal-IsDigit n)
decimal_ℤ-is_number (negsuc n) = (refl, digits-is_number _ (decimal-IsDigit _))

read_number-end : (z : ℤ) → IsInt z → read_number (decimal_ℤ z) ≡ (z, [])
unfolding read_number
read_number-end z h =
    rw (span-All is_number (decimal_ℤ z) (decimal_ℤ-is_number z)) (rw (atoi-decimal_ℤ z h) refl)

read_number-append :
    (z : ℤ) (c : ℕ) (rest : Bytes)
    → IsInt z
    → is_number c ≡ false
    → read_number (decimal_ℤ z ++ c ∷ rest) ≡ (z, c ∷ rest)
unfolding read_number
read_number-append z c rest h n =
    rw (span-append is_number (decimal_ℤ z) c rest (decimal_ℤ-is_number z) n)
      (rw (atoi-decimal_ℤ z h) refl)

literal-is_inside : (s : Bytes) → IsLiteral s → All (λ c. is_inside c ≡ true) s
literal-is_inside [] h = tt
literal-is_inside (c ∷ s) h = (ground (arith, h.0.1), literal-is_inside s h.1)

read_text-append :
    (s rest : Bytes) → IsLiteral s → read_text (s ++ b'\'' ∷ rest) ≡ (s, b'\'' ∷ rest)
unfolding read_text
read_text-append s rest h = span-append is_inside s b'\'' rest (literal-is_inside s h) refl

pub read_sql-user_insert :
    (u : User)
    → IsLiteral u.name
    → IsLiteral u.password
    → IsLiteral u.state
    → read_sql (user_insert_sql u) ≡ some (insert_user u.name u.password u.state)
unfolding read_sql
read_sql-user_insert u n p s =
    rw (c_str-literal u.name n, c_str-literal u.password p, c_str-literal u.state s)
      (rw (read_text-append u.name _ n)
        (rw (read_text-append u.password _ p) (rw (read_text-append u.state _ s) refl)))

pub read_sql-user_query : (id : ℤ) → IsInt id → read_sql (user_query_sql id) ≡ some (select_user id)
unfolding read_sql
read_sql-user_query id h = rw (read_number-end id h) refl

pub read_sql-update_state :
    (u : User)
    → IsInt u.id
    → IsLiteral u.state
    → read_sql (update_state_sql u) ≡ some (update_user u.state u.id)
unfolding read_sql
read_sql-update_state u h l =
    rw (c_str-literal u.state l)
      (rw (read_text-append u.state _ l) (rw (read_number-end u.id h) refl))

pub read_sql-reset_state : read_sql reset_state_sql ≡ some update_users
unfolding read_sql read_text read_number span
read_sql-reset_state = refl

pub read_sql-offline_insert :
    (id : ℤ) (m : Bytes)
    → IsInt id
    → IsLiteral m
    → read_sql (offline_insert_sql id m) ≡ some (insert_message id m)
unfolding read_sql
read_sql-offline_insert id m h l =
    rw (c_str-literal m l)
      (rw (read_number-append id _ _ h refl) (rw (read_text-append m _ l) refl))

pub read_sql-offline_remove :
    (id : ℤ) → IsInt id → read_sql (offline_remove_sql id) ≡ some (delete_messages id)
unfolding read_sql
read_sql-offline_remove id h = rw (read_number-end id h) refl

pub read_sql-offline_query :
    (id : ℤ) → IsInt id → read_sql (offline_query_sql id) ≡ some (select_messages id)
unfolding read_sql
read_sql-offline_query id h = rw (read_number-end id h) refl

pub read_sql-query_gropu_users :
    (user group : ℤ)
    → IsInt user
    → IsInt group
    → read_sql (query_gropu_users_sql user group) ≡ some (select_members user group)
unfolding read_sql
read_sql-query_gropu_users user group hu hg =
    rw (read_number-append user _ _ hu refl) (rw (read_number-end group hg) refl)

-- Whatever begins with `select ` is read as one of the three queries, or not at all.
abbrev pub IsQuery : Option Statement → Type 0
IsQuery none = Unit
IsQuery (some (select_user id)) = Unit
IsQuery (some (select_messages id)) = Unit
IsQuery (some (select_members user group)) = Unit
IsQuery (some _) = ⊥

orelse-IsQuery : (a b : Option Statement) → IsQuery a → IsQuery b → IsQuery (orelse a b)
orelse-IsQuery none b h k = k
orelse-IsQuery (some statement) b h k = h

select_user-IsQuery : (s : Bytes) → IsQuery (read_select_user s)
unfolding read_select_user
select_user-IsQuery s = ground arith

select_messages-IsQuery : (s : Bytes) → IsQuery (read_select_messages s)
unfolding read_select_messages
select_messages-IsQuery s = ground arith

select_members-IsQuery : (s : Bytes) → IsQuery (read_select_members s)
unfolding read_select_members
select_members-IsQuery s = ground arith

pub select-IsQuery : (rest : Bytes) → IsQuery (read_sql (codes "select " ++ rest))
unfolding read_sql
select-IsQuery rest =
    let s = codes "select " ++ rest in
    orelse-IsQuery (read_select_user s) (orelse (read_select_messages s) (read_select_members s))
      (select_user-IsQuery s)
      (orelse-IsQuery (read_select_messages s) (read_select_members s) (select_messages-IsQuery s)
        (select_members-IsQuery s))

pub read_sql-friend_query : (id : ℤ) → read_sql (friend_query_sql id) ≡ none
unfolding read_sql
read_sql-friend_query id = refl

pub read_sql-query_groups : (id : ℤ) → read_sql (query_groups_sql id) ≡ none
unfolding read_sql
read_sql-query_groups id = refl

pub read_sql-group_users : (id : ℤ) → read_sql (group_users_sql id) ≡ none
unfolding read_sql
read_sql-group_users id = refl
