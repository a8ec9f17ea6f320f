-- ===== src/ChatServer/Models/Sql/Bounds.antt =====
-- Which statements fit into the `char sql[1024]` of ChatServer/src/server/model/.
use cpp_tiny_lab.Base.{
  ◌≡◌, ◌≤◌, refl, ap, none, some, List, [], ◌∷◌, ◌++◌, All, arith, length, length-append,
}
use cpp_tiny_lab.Base.Bytes.{Bytes, codes, IsText}
use cpp_tiny_lab.Base.Int.{ℤ}
use cpp_tiny_lab.Base.Numerals.{IsInt, decimal_ℤ, length-decimal_ℤ, length-decimal_ℤ_pos}
use cpp_tiny_lab.ChatServer.{default_user}
use cpp_tiny_lab.ChatServer.Models.Database.{Mysql, sprintf_sql, c_str}
use cpp_tiny_lab.ChatServer.Models.Statements.{
  user_query_sql, update_state_sql, add_group_sql, offline_insert_sql, offline_remove_sql,
  offline_query_sql, friend_insert_sql, friend_query_sql, query_groups_sql, group_users_sql,
  query_gropu_users_sql,
}
use cpp_tiny_lab.ChatServer.Models.Sql.{do_update, offline_insert}

pub fits-user_query :
    (id : ℤ) → IsInt id → sprintf_sql (user_query_sql id) ≡ some (user_query_sql id)
fits-user_query id h = ground (arith, length-decimal_ℤ id h)

pub fits-query_gropu_users :
    (a b : ℤ)
    → IsInt a
    → IsInt b
    → sprintf_sql (query_gropu_users_sql a b) ≡ some (query_gropu_users_sql a b)
fits-query_gropu_users a b ha hb = ground (
  arith,
  length-decimal_ℤ a ha,
  length-decimal_ℤ b hb,
  length-append (decimal_ℤ a) (codes " and groupid = " ++ decimal_ℤ b),
)

-- The statements that the service makes of one or two numbers.
abbrev pub number_statements : ℤ → ℤ → List Bytes
number_statements a b =
    user_query_sql a
    ∷ update_state_sql (record default_user { id = a })
    ∷ offline_remove_sql a
    ∷ offline_query_sql a
    ∷ friend_insert_sql a b
    ∷ friend_query_sql a
    ∷ add_group_sql a b (codes "creator")
    ∷ query_groups_sql a
    ∷ group_users_sql b
    ∷ query_gropu_users_sql a b
    ∷ []

-- The statements that the service makes of one or two numbers fit into the array with their NUL.
pub number_statements-fit :
    (a b : ℤ) → IsInt a → IsInt b → All (λ sql. sprintf_sql sql ≡ some sql) (number_statements a b)
unfolding c_str
number_statements-fit a b ha hb =
    let la = length-decimal_ℤ a ha in
    let lb = length-decimal_ℤ b hb in
    (
      fits-user_query a ha,
      (
        ground (arith, la),
        (
          ground (arith, la),
          (
            ground (arith, la),
            (
              ground (
                arith,
                la,
                lb,
                length-append (decimal_ℤ a) (codes ", " ++ (decimal_ℤ b ++ codes ")")),
                length-append (decimal_ℤ b) (codes ")"),
              ),
              (
                ground (arith, la),
                (
                  ground (
                    arith,
                    la,
                    lb,
                    length-append (decimal_ℤ b)
                        (codes ", " ++ (decimal_ℤ a ++ codes ", 'creator')")),
                    length-append (decimal_ℤ a) (codes ", 'creator')"),
                  ),
                  (
                    ground (arith, la),
                    (ground (arith, lb), (fits-query_gropu_users a b ha hb, tt)),
                  ),
                ),
              ),
            ),
          ),
        ),
      ),
    )

pub c_str-text : (s : Bytes) → IsText s → c_str s ≡ s
unfolding c_str
c_str-text [] h = refl
c_str-text (c ∷ s) h = ground (arith, h.0, c_str-text s h.1)

length-offline_insert_sql :
    (id : ℤ) (msg : Bytes)
    → IsText msg
    → 984 ≤ length msg
    → 1024 ≤ length (offline_insert_sql id msg)
length-offline_insert_sql id msg t h =
    let text = c_str-text msg t in
    omega (
      arith,
      length-decimal_ℤ_pos id,
      ap length text,
      length-append (decimal_ℤ id) (codes ", '" ++ (c_str msg ++ codes "')")),
      length-append (c_str msg) (codes "')"),
    )

pub offline_insert-overrun :
    (mysql : Mysql) (id : ℤ) (msg : Bytes) (s : mysql.State)
    → IsText msg
    → 984 ≤ length msg
    → offline_insert mysql id msg s ≡ none
unfolding offline_insert do_update
offline_insert-overrun mysql id msg s t h = ground (arith, length-offline_insert_sql id msg t h)
