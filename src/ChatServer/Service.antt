-- ===== src/ChatServer/Service.antt =====
-- `ChatService`, ChatServer/src/server/chatservice.cpp. A handler is `none` where a field of the
-- message is missing or of another type and the JSON library throws; that is before any effect.
pub mod Connections
pub mod Delivery
pub mod Results
pub mod Round
pub mod Receive
pub mod Online
pub mod Login
pub mod Protocol
pub mod Stored
mod Tests
use cpp_tiny_lab.Base.{
  ◌>>=◌, ℕ, ◌≡◌, Bool, true, false, not, ◌&&◌, Option, none, some, List, [], ◌∷◌, ◌++◌, map,
  if◌then◌else◌, ◌==◌,
}
use cpp_tiny_lab.Base.Bytes.{Bytes, codes, bytes_eq}
use cpp_tiny_lab.Base.Int.{ℤ, pos, minus_one, eq_ℤ}
use cpp_tiny_lab.ChatServer.{
  login_msg, logout_msg, reg_msg, login_msg_ack, reg_msg_ack, one_chat_msg, add_friend_msg,
  create_group_msg, add_group_msg, group_chat_msg, User, default_user, GroupUser, Group,
}
use cpp_tiny_lab.ChatServer.Answers.{
  already_online, wrong_password, answer_fields, friend_text, group_text, registered_fields,
  refusal_fields,
}
use cpp_tiny_lab.ChatServer.Json.{Value, int, text, texts, Fields, JsonLibrary}
use cpp_tiny_lab.ChatServer.Models.{Models}

-- A connection, by the address of its object.
abbrev pub Conn : Type 0
Conn = ℕ

-- `_userConnMap`
abbrev pub ConnMap : Type 0
ConnMap = List (ℤ × Conn)

unfoldable pub find : ℤ → ConnMap → Option Conn
find id [] = none
find id ((k, c) ∷ m) = if eq_ℤ k id then some c else find id m

-- `insert` of an unordered_map, which leaves an entry that is there.
pub insert : ℤ → Conn → ConnMap → ConnMap
insert id conn m = elim (find id m) [ none ↦ (id, conn) ∷ m | some old ↦ m ]

pub erase : ℤ → ConnMap → ConnMap
erase id [] = []
erase id ((k, c) ∷ m) = if eq_ℤ k id then m else (k, c) ∷ erase id m

-- The first user in the map whose connection it is, and the map without that entry.
pub remove_conn : Conn → ConnMap → Option ℤ × ConnMap
remove_conn conn [] = (none, [])
remove_conn conn ((k, c) ∷ m) =
    let (user, rest) = remove_conn conn m in
    if c == conn then (some k, m) else (user, (k, c) ∷ rest)

module _ (models : Models) (library : JsonLibrary) where
  open models use {
    Db, user_insert, user_query, update_state, reset_state, offline_insert, offline_remove,
    offline_query, friend_insert, friend_query, create_group as models_create_group,
    add_group as models_add_group, query_groups, query_gropu_users,
  }
  open library use {Json, get_int, get_string, dump, object, parse}

  -- `sent` is what the connections were given to send, in order.
  pub record Service : Type 0 where
    pub user_conn_map : ConnMap
    pub db : Db
    pub sent : List (Conn × Bytes)

  pub send : Conn → Bytes → Service → Service
  send conn message s = record s { sent = s.sent ++ (conn, message) ∷ [] }

  abbrev dump_object : Fields → Bytes
  dump_object fields = dump (object fields)

  pub refusal : ℕ → Bytes → Bytes
  refusal errno errmsg = dump_object (refusal_fields errno errmsg)

  -- Offline messages are read, and then removed if there were any.
  unfoldable pub take_offline : ℤ → Db → List Bytes × Db
  take_offline id db =
      let (messages, db') = offline_query id db in
      elim messages [ [] ↦ ([], db') | m ∷ ms ↦ (m ∷ ms, offline_remove id db') ]

  pub login_success : Conn → ℤ → User → Service → Service
  login_success conn id user s =
      let (updated, db1) = update_state (record user { state = codes "online" }) s.db in
      let (messages, db2) = take_offline id db1 in
      let (friends, db3) = friend_query id db2 in
      let (groups, db4) = query_groups id db3 in
      send conn
        (dump_object (
          answer_fields user messages (map (friend_text library) friends)
            (map (group_text library) groups)))
        (record s { user_conn_map = insert id conn s.user_conn_map; db = db4 })

  pub login_known : Conn → ℤ → User → Service → Service
  login_known conn id user s =
      if bytes_eq user.state (codes "online")
      then send conn (refusal 2 already_online) s
      else login_success conn id user s

  -- `login` behind the query of the user.
  abbrev pub outcome : Conn → ℤ → Bytes → User → Service → Service
  outcome conn id pwd user s =
      if eq_ℤ user.id id && bytes_eq user.password pwd
      then login_known conn id user s
      else send conn (refusal 1 wrong_password) s

  pub login : Conn → Json → Service → Option Service
  login conn js s = get_int js (codes "id") >>= λ id. get_string js (codes "password") >>= λ pwd.
      let (user, db) = user_query id s.db in
      let s' = record s { db = db } in some (outcome conn id pwd user s')

  pub logout : Conn → Json → Service → Option Service
  logout conn js s = get_int js (codes "id") >>= λ id. some (record s {
    user_conn_map = erase id s.user_conn_map;
    db = (update_state (record default_user { id = id }) s.db).1;
  })

  pub reg : Conn → Json → Service → Option Service
  reg conn js s = get_string js (codes "name") >>= λ name.
      get_string js (codes "password") >>= λ pwd.
      let (state, user, db) =
        user_insert (record default_user { name = name; password = pwd }) s.db in
      some (send conn (dump_object (registered_fields state user.id)) (record s { db = db }))

  -- A message goes to the user's connection, or is stored where there is none.
  pub deliver : ℤ → Bytes → Service → Service
  deliver id message s = elim (find id s.user_conn_map) [
    | none ↦ record s { db = offline_insert id message s.db }
    | some conn ↦ send conn message s
  ]

  pub one_chat : Conn → Json → Service → Option Service
  one_chat conn js s = get_int js (codes "to") >>= λ id. some (deliver id (dump js) s)

  pub add_friend : Conn → Json → Service → Option Service
  add_friend conn js s = get_int js (codes "id") >>= λ id.
      get_int js (codes "friendid") >>= λ friendid.
      some (record s { db = friend_insert id friendid s.db })

  pub create_group : Conn → Json → Service → Option Service
  create_group conn js s = get_int js (codes "id") >>= λ id.
      get_string js (codes "groupname") >>= λ name. get_string js (codes "desc") >>= λ desc.
      let (made, group, db) =
        models_create_group (record { id = minus_one; name = name; desc = desc; users = [] })
          s.db in
      some
        (record s { db = if made then models_add_group id group.id (codes "creator") db else db })

  pub add_group : Conn → Json → Service → Option Service
  add_group conn js s = get_int js (codes "id") >>= λ id.
      get_int js (codes "groupid") >>= λ groupid.
      some (record s { db = models_add_group id groupid (codes "normal") s.db })

  pub deliver_all : List ℤ → Bytes → Service → Service
  deliver_all [] message s = s
  deliver_all (id ∷ ids) message s = deliver_all ids message (deliver id message s)

  pub group_chat : Conn → Json → Service → Option Service
  group_chat conn js s = get_int js (codes "id") >>= λ id.
      get_int js (codes "groupid") >>= λ groupid.
      let (ids, db) = query_gropu_users id groupid s.db in
      some (deliver_all ids (dump js) (record s { db = db }))

  set_offline : Option ℤ → Db → Db
  set_offline none db = db
  set_offline (some id) db =
      if eq_ℤ id minus_one then db else (update_state (record default_user { id = id }) db).1

  pub clinet_close_exception : Conn → Service → Service
  clinet_close_exception conn s =
      let (user, m) = remove_conn conn s.user_conn_map in
      record s { user_conn_map = m; db = set_offline user s.db }

  pub reset : Service → Service
  reset s = record s { db = reset_state s.db }

  -- `getMsgHandle` and the call of what it returns; an unknown id is only logged.
  pub handle : ℤ → Conn → Json → Service → Option Service
  handle msgid conn js s =
      if eq_ℤ msgid login_msg
      then login conn js s
      else if eq_ℤ msgid logout_msg
      then logout conn js s
      else if eq_ℤ msgid reg_msg
      then reg conn js s
      else if eq_ℤ msgid one_chat_msg
      then one_chat conn js s
      else if eq_ℤ msgid add_friend_msg
      then add_friend conn js s
      else if eq_ℤ msgid create_group_msg
      then create_group conn js s
      else if eq_ℤ msgid add_group_msg
      then add_group conn js s
      else if eq_ℤ msgid group_chat_msg
      then group_chat conn js s
      else some s

  -- `ChatServer::onMessage`, on a message that was parsed.
  pub on_message : Conn → Json → Service → Option Service
  on_message conn js s = get_int js (codes "msgid") >>= λ msgid. handle msgid conn js s

  -- `ChatServer::onMessage`; `parse` throws on a text that is no JSON.
  pub receive : Conn → Bytes → Service → Option Service
  receive conn buf s = parse buf >>= λ js. on_message conn js s

  -- `ChatServer::onConnect`, called when a connection is made and when it has ended.
  unfoldable pub on_connect : Bool → Conn → Service → Service
  on_connect connected conn s = if connected then s else clinet_close_exception conn s
