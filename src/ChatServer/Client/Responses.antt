-- ===== src/ChatServer/Client/Responses.antt =====
-- The thread of the client that receives, `readTaskHandler` with what it calls, of
-- ChatServer/src/client/clientservice.cpp. `none` is an exception of the JSON library.
pub mod Reading
pub mod Messages
pub mod LoginAnswer
pub mod Shapes
use cpp_tiny_lab.Base.{
  read_all, ◌>>=◌, ℕ, suc, ◌+◌, ◌≡◌, Bool, true, false, Option, none, some, List, [], ◌∷◌, ◌++◌,
  map, if◌then◌else◌,
}
use cpp_tiny_lab.Base.Bytes.{Bytes, codes}
use cpp_tiny_lab.Base.Int.{ℤ, pos, eq_ℤ}
use cpp_tiny_lab.Base.Numerals.{decimal_ℤ}
use cpp_tiny_lab.ChatServer.{
  login_msg_ack, reg_msg_ack, one_chat_msg, group_chat_msg, User, default_user, GroupUser, Group,
}
use cpp_tiny_lab.ChatServer.Json.{JsonLibrary}
use cpp_tiny_lab.ChatServer.Client.{Client, print}

-- In UTF-8: the mark of a group message.
abbrev pub group_mark : Bytes
group_mark = 231 ∷ 190 ∷ 164 ∷ 230 ∷ 182 ∷ 136 ∷ 230 ∷ 129 ∷ 175 ∷ []

abbrev pub friend_line : User → Bytes
friend_line u = decimal_ℤ u.id ++ (b' ' ∷ u.name ++ (b' ' ∷ u.state))

abbrev pub member_lines : List GroupUser → List Bytes
member_lines [] = []
member_lines (g ∷ gs) = (friend_line g.user ++ (b' ' ∷ g.role)) ∷ member_lines gs

abbrev pub group_lines : List Group → List Bytes
group_lines [] = []
group_lines (g ∷ gs) =
    (decimal_ℤ g.id ++ (b' ' ∷ g.name ++ (b' ' ∷ g.desc)))
    ∷ (member_lines g.users ++ group_lines gs)

unfoldable pub show_current_user_data : Client → Client
show_current_user_data c = record c {
  printed =
      c.printed
      ++ (codes "======================login user======================"
          ∷ (codes "current login user => id:"
              ++ (decimal_ℤ c.current_user.id ++ (codes " name:" ++ c.current_user.name)))
          ∷ codes "----------------------friend list---------------------"
          ∷ (map friend_line c.friend_list
              ++ (codes "----------------------group list----------------------"
                  ∷ (group_lines c.group_list
                      ++ (codes "======================================================" ∷ [])))));
}

module _ (library : JsonLibrary) where
  open library use {Json, parse, get_int, get_string, get_texts, contains, show}

  -- time + [id] + name + " said: " + msg
  pub said : Json → Option Bytes
  said js = get_string js (codes "time") >>= λ time. get_string js (codes "name") >>= λ name.
      get_string js (codes "msg") >>= λ msg.
      some (
        time ++ (codes " [" ++ (show js (codes "id") ++ (b']' ∷ name ++ (codes " said: " ++ msg)))))

  pub said_in_group : Json → Option Bytes
  said_in_group js = said js >>= λ line.
      some (group_mark ++ (b'[' ∷ show js (codes "groupid") ++ (codes "]:" ++ line)))

  pub do_reg_response : Json → Client → Option Client
  do_reg_response js c = get_int js (codes "errno") >>= λ errno. some (
      if eq_ℤ errno (pos 0)
      then print
          (codes "name register success, userid is "
            ++ (show js (codes "id") ++ codes ", do not forget it!"))
          c
      else print (codes "name is already exist, register error!") c)

  pub read_friend : Bytes → Option User
  read_friend s = parse s >>= λ js. get_int js (codes "id") >>= λ id.
      get_string js (codes "name") >>= λ name. get_string js (codes "state") >>= λ state.
      some (record default_user { id = id; name = name; state = state })

  pub read_member : Bytes → Option GroupUser
  read_member s = parse s >>= λ js. get_int js (codes "id") >>= λ id.
      get_string js (codes "name") >>= λ name. get_string js (codes "state") >>= λ state.
      get_string js (codes "role") >>= λ role.
      some
        (record { user = record default_user { id = id; name = name; state = state }; role = role })

  pub read_group : Bytes → Option Group
  read_group s = parse s >>= λ js. get_int js (codes "id") >>= λ id.
      get_string js (codes "groupname") >>= λ name. get_string js (codes "groupdesc") >>= λ desc.
      get_texts js (codes "users") >>= λ texts. read_all read_member texts >>= λ users.
      some (record { id = id; name = name; desc = desc; users = users })

  pub read_friends : Json → Client → Option Client
  read_friends js c =
      if contains js (codes "friends")
      then (get_texts js (codes "friends") >>= λ texts.
          read_all read_friend texts >>= λ friends. some (record c { friend_list = friends }))
      else some c

  pub read_groups : Json → Client → Option Client
  read_groups js c =
      if contains js (codes "groups")
      then (get_texts js (codes "groups") >>= λ texts.
          read_all read_group texts >>= λ groups. some (record c { group_list = groups }))
      else some c

  pub offline_line : Bytes → Option Bytes
  offline_line s = parse s >>= λ js. get_int js (codes "msgid") >>= λ msgid.
      if eq_ℤ one_chat_msg msgid then said js else said_in_group js

  pub show_offline : Json → Client → Option Client
  show_offline js c =
      if contains js (codes "offlinemsg")
      then (get_texts js (codes "offlinemsg") >>= λ texts.
          read_all offline_line texts >>= λ lines. some (record c { printed = c.printed ++ lines }))
      else some c

  pub login_accepted : Json → Client → Option Client
  login_accepted js c = get_int js (codes "id") >>= λ id. get_string js (codes "name") >>= λ name.
      read_friends js (record c { current_user = record c.current_user { id = id; name = name } })
      >>= λ c1. read_groups js c1 >>= λ c2. show_offline js (show_current_user_data c2) >>= λ c3.
          some (record c3 { is_login_success = true })

  pub do_login_response : Json → Client → Option Client
  do_login_response js c = get_int js (codes "errno") >>= λ errno.
      if eq_ℤ errno (pos 0)
      then login_accepted js c
      else some (record (print (show js (codes "errmsg")) c) { is_login_success = false })

  abbrev post : Client → Client
  post c = record c { rwsem = c.rwsem + 1 }

  pub handle_type : ℤ → Json → Client → Option Client
  handle_type msgtype js c =
      if eq_ℤ one_chat_msg msgtype
      then (said js >>= λ line. some (print line c))
      else if eq_ℤ group_chat_msg msgtype
      then (said_in_group js >>= λ line. some (print line c))
      else if eq_ℤ login_msg_ack msgtype
      then (do_login_response js c >>= λ c'. some (post c'))
      else if eq_ℤ reg_msg_ack msgtype
      then (do_reg_response js c >>= λ c'. some (post c'))
      else some c

  pub read_task_handler : Bytes → Client → Option Client
  read_task_handler buffer c =
      parse buffer >>= λ js. get_int js (codes "msgid") >>= λ msgtype. handle_type msgtype js c
