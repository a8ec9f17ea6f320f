-- ===== src/ChatServer/Models/Sql/Fits.antt =====
-- Statements of ChatServer/src/server/model/ with texts that fit into their `char sql[1024]`.
use cpp_tiny_lab.Base.{◌+◌, ◌≤◌, ◌≡◌, refl, ap, some, [], ◌∷◌, ◌++◌, arith, length, length-append}
use cpp_tiny_lab.Base.Bytes.{Bytes, codes}
use cpp_tiny_lab.Base.Int.{ℤ}
use cpp_tiny_lab.Base.Numerals.{IsInt, decimal_ℤ, length-decimal_ℤ}
use cpp_tiny_lab.ChatServer.{User}
use cpp_tiny_lab.ChatServer.Models.Database.{sprintf_sql, c_str}
use cpp_tiny_lab.ChatServer.Models.Statements.{
  user_insert_sql, update_state_sql, offline_insert_sql, offline_remove_sql, offline_query_sql,
  friend_query_sql, query_groups_sql, group_users_sql,
}
use cpp_tiny_lab.ChatServer.Models.Tables.{IsLiteral}

pub c_str-literal : (s : Bytes) → IsLiteral s → c_str s ≡ s
unfolding c_str
c_str-literal [] h = refl
c_str-literal (c ∷ s) h = ground (arith, h.0.0, c_str-literal s h.1)

pub fits-offline_insert :
    (id : ℤ) (m : Bytes)
    → IsInt id
    → IsLiteral m
    → length m ≤ 973
    → sprintf_sql (offline_insert_sql id m) ≡ some (offline_insert_sql id m)
fits-offline_insert id m h l len = ground (
  arith,
  length-decimal_ℤ id h,
  ap length (c_str-literal m l),
  length-append (decimal_ℤ id) (codes ", '" ++ (c_str m ++ codes "')")),
  length-append (c_str m) (codes "')"),
)

pub fits-offline_remove :
    (id : ℤ) → IsInt id → sprintf_sql (offline_remove_sql id) ≡ some (offline_remove_sql id)
fits-offline_remove id h = ground (arith, length-decimal_ℤ id h)

pub fits-offline_query :
    (id : ℤ) → IsInt id → sprintf_sql (offline_query_sql id) ≡ some (offline_query_sql id)
fits-offline_query id h = ground (arith, length-decimal_ℤ id h)

pub fits-update_state :
    (u : User)
    → IsInt u.id
    → IsLiteral u.state
    → length u.state ≤ 900
    → sprintf_sql (update_state_sql u) ≡ some (update_state_sql u)
fits-update_state u h l len = ground (
  arith,
  length-decimal_ℤ u.id h,
  ap length (c_str-literal u.state l),
  length-append (c_str u.state) (codes "' where id = " ++ decimal_ℤ u.id),
)

pub fits-user_insert :
    (u : User)
    → IsLiteral u.name
    → IsLiteral u.password
    → IsLiteral u.state
    → length u.name + (length u.password + length u.state) ≤ 950
    → sprintf_sql (user_insert_sql u) ≡ some (user_insert_sql u)
fits-user_insert u hn hp hs len = ground (
  arith,
  ap length (c_str-literal u.name hn),
  ap length (c_str-literal u.password hp),
  ap length (c_str-literal u.state hs),
  length-append (c_str u.name)
      (codes "', '" ++ (c_str u.password ++ (codes "', '" ++ (c_str u.state ++ codes "')")))),
  length-append (c_str u.password) (codes "', '" ++ (c_str u.state ++ codes "')")),
  length-append (c_str u.state) (codes "')"),
)

pub fits-friend_query :
    (id : ℤ) → IsInt id → sprintf_sql (friend_query_sql id) ≡ some (friend_query_sql id)
fits-friend_query id h = ground (arith, length-decimal_ℤ id h)

pub fits-query_groups :
    (id : ℤ) → IsInt id → sprintf_sql (query_groups_sql id) ≡ some (query_groups_sql id)
fits-query_groups id h = ground (arith, length-decimal_ℤ id h)

pub fits-group_users :
    (id : ℤ) → IsInt id → sprintf_sql (group_users_sql id) ≡ some (group_users_sql id)
fits-group_users id h = ground (arith, length-decimal_ℤ id h)
