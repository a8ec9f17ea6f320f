-- ===== src/ChatServer/Models/Engine/Executing.antt =====
-- The server in memory is one that ChatServer/src/server/model/ can rely on.
use cpp_tiny_lab.Base.{
  ◌^◌, ◌<◌, ◌≡◌, refl, Bool, true, false, Option, none, some, List, [], ◌∷◌, ◌++◌, All, arith,
  if◌then◌else◌, ap, sym, ◌∙◌,
}
use cpp_tiny_lab.Base.Bytes.{Bytes, count}
use cpp_tiny_lab.Base.Int.{ℤ, pos, eq_ℤ, eq_ℤ_iff}
use cpp_tiny_lab.Base.Numerals.{IsInt}
use cpp_tiny_lab.ChatServer.{User}
use cpp_tiny_lab.ChatServer.Models.Statements.{offline_insert_sql, offline_remove_sql}
use cpp_tiny_lab.ChatServer.Models.Sql.Methods.{succeeds}
use cpp_tiny_lab.ChatServer.Models.Tables.{
  Member, find_user, times, times_member, count_id, IsLiteral, IsServer,
}
use cpp_tiny_lab.ChatServer.Models.Engine.{
  Statement, insert_user, select_user, update_user, update_users, insert_message, delete_messages,
  select_messages, select_members, read_sql, Engine, group_members, engine_tables, messages_of,
  others_of, execute, run_sql, engine,
}
use cpp_tiny_lab.ChatServer.Models.Engine.Reading.{
  read_sql-user_insert, read_sql-user_query, read_sql-update_state, read_sql-reset_state,
  read_sql-offline_insert, read_sql-offline_remove, read_sql-offline_query,
  read_sql-query_gropu_users, read_sql-friend_query, read_sql-query_groups, read_sql-group_users,
  IsQuery, select-IsQuery,
}

run_sql-fails :
    (o : Option Statement) (s : Engine)
    → (run_sql o s).0 ≡ false
    → engine_tables (run_sql o s).1 ≡ engine_tables s
unfolding execute
run_sql-fails none s e = refl
run_sql-fails (some (insert_user name password state)) s e = ground arith
run_sql-fails (some (select_user id)) s e = refl
run_sql-fails (some (update_user state id)) s e = cc
run_sql-fails (some update_users) s e = cc
run_sql-fails (some (insert_message id m)) s e = cc
run_sql-fails (some (delete_messages id)) s e = cc
run_sql-fails (some (select_messages id)) s e = refl
run_sql-fails (some (select_members user group)) s e = refl

run_sql-IsQuery :
    (o : Option Statement) (s : Engine)
    → IsQuery o
    → engine_tables (run_sql o s).1 ≡ engine_tables s
unfolding execute
run_sql-IsQuery none s h = refl
run_sql-IsQuery (some (select_user id)) s h = refl
run_sql-IsQuery (some (select_messages id)) s h = refl
run_sql-IsQuery (some (select_members user group)) s h = refl
run_sql-IsQuery (some (insert_user name password state)) s h = absurd h
run_sql-IsQuery (some (update_user state id)) s h = absurd h
run_sql-IsQuery (some update_users) s h = absurd h
run_sql-IsQuery (some (insert_message id m)) s h = absurd h
run_sql-IsQuery (some (delete_messages id)) s h = absurd h

-- What a statement that was read does to the tables.
reads :
    (sql : Bytes) (a : Statement) (s s' : Engine)
    → read_sql sql ≡ some a
    → run_sql (read_sql sql) s ≡ (true, s')
    → execute a s ≡ (true, s')
reads sql a s s' e r = sym (ap (λ (o : Option Statement). run_sql o s) e) ∙ r

gives :
    (sql : Bytes) (a : Statement) (s s' : Engine)
    → read_sql sql ≡ some a
    → run_sql (read_sql sql) s ≡ (true, s')
    → engine_tables s' ≡ engine_tables (execute a s).1
gives sql a s s' e r = ap (λ (p : Bool × Engine). engine_tables p.1) (sym (reads sql a s s' e r))

-- The rows of a statement that was read.
asks :
    (sql : Bytes) (a : Statement) (s : Engine)
    → read_sql sql ≡ some a
    → some (run_sql (read_sql sql) s).1.rows ≡ some (execute a s).1.rows
asks sql a s e = ap (λ (o : Option Statement). some (run_sql o s).1.rows) e

asks_none :
    (sql : Bytes) (s : Engine)
    → read_sql sql ≡ none
    → some (run_sql (read_sql sql) s).1.rows ≡ some []
asks_none sql s e = ap (λ (o : Option Statement). some (run_sql o s).1.rows) e

insert_user-adds :
    (u : User) (s s' : Engine)
    → execute (insert_user u.name u.password u.state) s ≡ (true, s')
    → (s'.last < 2 ^ 31)
      × (find_user (pos s'.last) s.users ≡ none)
      × (engine_tables s'
          ≡ record (engine_tables s) { users = s.users ++ record u { id = pos s'.last } ∷ [] })
unfolding execute
insert_user-adds u s s' e = ground arith

count-messages_of :
    (id : ℤ) (m : Bytes) (messages : List (ℤ × Bytes))
    → count m (messages_of id messages) ≡ times id messages m
unfolding messages_of times
count-messages_of id m [] = refl
count-messages_of id m ((k, x) ∷ messages) = ground (arith, count-messages_of id m messages)

count_id-others_of :
    (user group id : ℤ) (ms : List Member)
    → count_id id (others_of user group ms) ≡ (if eq_ℤ id user then 0 else times_member group id ms)
unfolding others_of times_member
count_id-others_of user group id [] = ground arith
count_id-others_of user group id (m ∷ ms) = ground (
  arith,
  eq_ℤ_iff id user,
  eq_ℤ_iff m.userid user,
  eq_ℤ_iff m.userid id,
  count_id-others_of user group id ms,
)

others_of-All :
    (P : ℤ → Type 0) (user group : ℤ) (ms : List Member)
    → All (λ m. P m.userid) ms
    → All P (others_of user group ms)
unfolding others_of
others_of-All P user group [] h = tt
others_of-All P user group (m ∷ ms) h = ground (arith, others_of-All P user group ms h.1)

group_members-All : All (λ (m : Member). IsInt m.userid) group_members
group_members-All = omega arith

pub engine-IsServer : IsServer engine engine_tables
unfolding execute
engine-IsServer = record {
  connects = λ s. refl;
  connect_keeps = λ s. refl;
  close_keeps = λ s. refl;
  result_keeps = λ s. refl;
  fails = λ sql s. run_sql-fails (read_sql sql) s;
  selects = λ rest s. run_sql-IsQuery _ s (select-IsQuery rest);
  adds_user =
      λ u s s' n p st r. insert_user-adds u s s' (reads _ _ s s' (read_sql-user_insert u n p st) r);
  selects_user = λ id s h. asks _ _ s (read_sql-user_query id h);
  updates_state = λ u s s' h l r. gives _ _ s s' (read_sql-update_state u h l) r;
  resets_states = λ s s' r. gives _ _ s s' read_sql-reset_state r;
  adds_message = λ id m s s' h l r. gives _ _ s s' (read_sql-offline_insert id m h l) r;
  deletes_messages = λ id s s' h r. gives _ _ s s' (read_sql-offline_remove id h) r;
  selects_messages = λ id s h. (
    messages_of id s.messages,
    asks _ _ s (read_sql-offline_query id h),
    λ m. count-messages_of id m s.messages,
  );
  selects_members = λ user group s hu hg. (
    others_of user group group_members,
    asks _ _ s (read_sql-query_gropu_users user group hu hg),
    others_of-All IsInt user group group_members group_members-All,
    λ id. count_id-others_of user group id group_members,
  );
  selects_friends = λ id s h. ([], asks_none _ s (read_sql-friend_query id));
  selects_groups = λ id s h. ([], asks_none _ s (read_sql-query_groups id), tt);
  selects_group_users = λ group s h. ([], asks_none _ s (read_sql-group_users group));
}

-- It stores every message that stands for itself between quotes, and removes messages.
pub engine-stores :
    (id : ℤ) (m : Bytes) (s : Engine)
    → IsInt id
    → IsLiteral m
    → succeeds engine (offline_insert_sql id m) s ≡ true
unfolding execute
engine-stores id m s h l =
    ap (λ (o : Option Statement). (run_sql o s).0) (read_sql-offline_insert id m h l)

pub engine-removes :
    (id : ℤ) (s : Engine) → IsInt id → succeeds engine (offline_remove_sql id) s ≡ true
unfolding execute
engine-removes id s h =
    ap (λ (o : Option Statement). (run_sql o s).0) (read_sql-offline_remove id h)
