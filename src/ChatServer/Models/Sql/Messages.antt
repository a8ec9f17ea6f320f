-- ===== src/ChatServer/Models/Sql/Messages.antt =====
-- `OfflineMsgModel` of ChatServer/src/server/model/offlinemsgmodel.cpp on the tables of a server that
-- can be reached.
use cpp_tiny_lab.Base.{
  Bool, ◌≤◌, ◌≡◌, refl, ap, ◌∙◌, true, some, List, [], ◌∷◌, ◌++◌, map, length, read_all, Bool-cases,
  inl, inr,
}
use cpp_tiny_lab.Base.Bytes.{Bytes, count}
use cpp_tiny_lab.Base.Int.{ℤ}
use cpp_tiny_lab.Base.Numerals.{IsInt}
use cpp_tiny_lab.ChatServer.{User}
use cpp_tiny_lab.ChatServer.Models.Database.{Mysql}
use cpp_tiny_lab.ChatServer.Models.Statements.{
  update_state_sql, offline_insert_sql, offline_remove_sql, offline_query_sql,
}
use cpp_tiny_lab.ChatServer.Models.Sql.{
  message_of_row, read_rows, update_state, offline_insert, offline_remove, offline_query,
}
use cpp_tiny_lab.ChatServer.Models.Sql.Fits.{
  fits-update_state, fits-offline_insert, fits-offline_remove, fits-offline_query,
}
use cpp_tiny_lab.ChatServer.Models.Sql.Methods.{
  succeeds, written, asked, done, do_update-succeeds, update_state-succeeds, do_query-asked,
}
use cpp_tiny_lab.ChatServer.Models.Tables.{
  Tables, times, drop_messages, IsLiteral, row_of_text, IsServer,
}

read_rows-texts : (ms : List Bytes) → read_rows message_of_row (some (map row_of_text ms)) ≡ some ms
unfolding read_rows read_all
read_rows-texts [] = refl
read_rows-texts (m ∷ ms) = rw (read_rows-texts ms) refl

module _ (mysql : Mysql) (tables : mysql.State → Tables) (server : IsServer mysql tables) where
  open mysql use {State, real_connect}

  -- A message that is stored.
  pub offline_insert-succeeds :
      (id : ℤ) (m : Bytes) (s : State)
      → IsInt id
      → IsLiteral m
      → length m ≤ 973
      → succeeds mysql (offline_insert_sql id m) s ≡ true
      → (offline_insert mysql id m s ≡ some (written mysql (offline_insert_sql id m) s))
        × (tables (written mysql (offline_insert_sql id m) s)
            ≡ record (tables s) { messages = (tables s).messages ++ (id, m) ∷ [] })
  unfolding offline_insert
  offline_insert-succeeds id m s h l len e = (
    rw
        (do_update-succeeds mysql tables server (offline_insert_sql id m) s
          (fits-offline_insert id m h l len))
        refl,
    server.close_keeps _
        ∙ server.adds_message id m _ _ h l (done mysql tables server _ s e)
        ∙ ap (λ (t : Tables). record t { messages = t.messages ++ (id, m) ∷ [] })
            (server.connect_keeps s),
  )

  -- The messages of a user that are removed.
  pub offline_remove-succeeds :
      (id : ℤ) (s : State)
      → IsInt id
      → succeeds mysql (offline_remove_sql id) s ≡ true
      → (offline_remove mysql id s ≡ some (written mysql (offline_remove_sql id) s))
        × (tables (written mysql (offline_remove_sql id) s)
            ≡ record (tables s) { messages = drop_messages id (tables s).messages })
  unfolding offline_remove
  offline_remove-succeeds id s h e = (
    rw (do_update-succeeds mysql tables server (offline_remove_sql id) s (fits-offline_remove id h))
        refl,
    server.close_keeps _
        ∙ server.deletes_messages id _ _ h (done mysql tables server _ s e)
        ∙ ap (λ (t : Tables). record t { messages = drop_messages id t.messages })
            (server.connect_keeps s),
  )

  -- A removal, whether it succeeds or not, leaves the users.
  pub offline_remove-users :
      (id : ℤ) (s : State)
      → IsInt id
      → (s' : State) × (offline_remove mysql id s ≡ some s')
        × ((tables s').users ≡ (tables s).users)
  unfolding offline_remove
  offline_remove-users id s h = (
    written mysql (offline_remove_sql id) s,
    rw (do_update-succeeds mysql tables server (offline_remove_sql id) s (fits-offline_remove id h))
        refl,
    elim (Bool-cases (succeeds mysql (offline_remove_sql id) s)) [
      | inl works ↦ ap (λ (t : Tables). t.users) (offline_remove-succeeds id s h works).1
      | inr failed ↦
          ap (λ (t : Tables). t.users)
            (server.close_keeps _ ∙ server.fails _ _ failed ∙ server.connect_keeps s)
    ],
  )

  -- The messages that are stored for a user, in some order.
  pub offline_query-times :
      (id : ℤ) (s : State)
      → IsInt id
      → (ms : List Bytes) × (offline_query mysql id s
          ≡ some (ms, asked mysql (offline_query_sql id) s))
        × ((m : Bytes) → count m ms ≡ times id (tables s).messages m)
  unfolding offline_query
  offline_query-times id s h =
      let (ms, r, c) = server.selects_messages id (real_connect s).1 h in
      (
        ms,
        do_query-asked mysql tables server _ [] ms (read_rows message_of_row) s
            (fits-offline_query id h) (ap (read_rows message_of_row) r ∙ read_rows-texts ms),
        λ m. c m ∙ ap (λ (t : Tables). times id t.messages m) (server.connect_keeps s),
      )

  -- An update of a state, whether it succeeds or not, leaves the messages.
  pub update_state-messages :
      (u : User) (d : State)
      → IsInt u.id
      → IsLiteral u.state
      → length u.state ≤ 900
      → (b : Bool) × (d' : State) × (update_state mysql u d ≡ some (b, d'))
        × ((tables d').messages ≡ (tables d).messages)
  unfolding update_state
  update_state-messages u d h l len = (
    succeeds mysql (update_state_sql u) d,
    written mysql (update_state_sql u) d,
    do_update-succeeds mysql tables server (update_state_sql u) d (fits-update_state u h l len),
    elim (Bool-cases (succeeds mysql (update_state_sql u) d)) [
      | inl works ↦
          ap (λ (t : Tables). t.messages)
            (update_state-succeeds mysql tables server u d h l len works).1
      | inr failed ↦
          ap (λ (t : Tables). t.messages)
            (server.close_keeps _ ∙ server.fails _ _ failed ∙ server.connect_keeps d)
    ],
  )
