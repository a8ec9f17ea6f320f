-- ===== src/ChatServer/Client.antt =====
-- `ClientService`, ChatServer/src/client/clientservice.cpp: the state of the client, its commands and
-- the lines that it prints.
pub mod Commands
pub mod Responses
use cpp_tiny_lab.Base.{
  ℕ, zero, suc, ◌+◌, ◌≡◌, Bool, true, false, Option, none, some, List, [], ◌∷◌, ◌++◌, if◌then◌else◌,
  ◌==◌, ltb,
}
use cpp_tiny_lab.Base.Bytes.{Bytes, codes, bytes_eq}
use cpp_tiny_lab.Base.Decimal.{decimal}
use cpp_tiny_lab.ChatServer.{User, default_user, Group}

-- Where the thread of `getStart` stands: not started, at the menu, behind the sending of a login, at
-- each of its two `sem_wait`s, in `mainMenu`, or behind `exit`.
pub data ClientPc : Type 0 where
  unstarted choosing login_sent login_wait register_wait chatting quitted : ClientPc

-- `class ClientService`, with what was printed, a line at a time, and sent.
pub record Client : Type 0 where
  pub pc : ClientPc
  pub current_user : User
  pub friend_list : List User
  pub group_list : List Group
  pub is_main_menu_running : Bool
  pub rwsem : ℕ
  pub is_login_success : Bool
  pub printed : List Bytes
  pub sent : List Bytes

-- The constructor.
abbrev pub new_client : Client
new_client = record {
  pc = unstarted;
  current_user = default_user;
  friend_list = [];
  group_list = [];
  is_main_menu_running = false;
  rwsem = 0;
  is_login_success = false;
  printed = [];
  sent = [];
}

-- `ChatClient::onConnect`: a connection that is up starts the thread of `getStart`.
pub client_on_connect : Bool → Client → Client
client_on_connect connected c = if connected then record c { pc = choosing } else c

pub print : Bytes → Client → Client
print line c = record c { printed = c.printed ++ line ∷ [] }

-- `commandMap`, in the order of the insertions; texts beyond ASCII are in UTF-8.
abbrev pub command_map : List (Bytes × Bytes)
command_map =
    (
      codes "help",
      (230 ∷ 152 ∷ 190 ∷ 231 ∷ 164 ∷ 186 ∷ 230 ∷ 137 ∷ 128 ∷ 230 ∷ 156 ∷ 137 ∷ 230 ∷ 148 ∷ 175 ∷ 230
            ∷ 140 ∷ 129 ∷ 231 ∷ 154 ∷ 132 ∷ 229 ∷ 145 ∷ 189 ∷ 228 ∷ 187 ∷ 164 ∷ [])
          ++ (codes ", " ++ ((230 ∷ 160 ∷ 188 ∷ 229 ∷ 188 ∷ 143 ∷ []) ++ (codes "help"))),
    )
    ∷ (
      codes "chat",
      (228 ∷ 184 ∷ 128 ∷ 229 ∷ 175 ∷ 185 ∷ 228 ∷ 184 ∷ 128 ∷ 232 ∷ 129 ∷ 138 ∷ 229 ∷ 164 ∷ 169 ∷ [])
          ++ (codes ", "
              ++ ((230 ∷ 160 ∷ 188 ∷ 229 ∷ 188 ∷ 143 ∷ []) ++ (codes "chat:friendid:message"))),
    )
    ∷ (
      codes "addfriend",
      (230 ∷ 183 ∷ 187 ∷ 229 ∷ 138 ∷ 160 ∷ 229 ∷ 165 ∷ 189 ∷ 229 ∷ 143 ∷ 139 ∷ [])
          ++ (codes ", "
              ++ ((230 ∷ 160 ∷ 188 ∷ 229 ∷ 188 ∷ 143 ∷ []) ++ (codes "addfriend:friendid"))),
    )
    ∷ (
      codes "creategroup",
      (229 ∷ 136 ∷ 155 ∷ 229 ∷ 187 ∷ 186 ∷ 231 ∷ 190 ∷ 164 ∷ 231 ∷ 187 ∷ 132 ∷ [])
          ++ (codes ", "
              ++ ((230 ∷ 160 ∷ 188 ∷ 229 ∷ 188 ∷ 143 ∷ [])
                  ++ (codes "creategroup:groupname:groupdesc"))),
    )
    ∷ (
      codes "addgroup",
      (229 ∷ 138 ∷ 160 ∷ 229 ∷ 133 ∷ 165 ∷ 231 ∷ 190 ∷ 164 ∷ 231 ∷ 187 ∷ 132 ∷ [])
          ++ (codes ", "
              ++ ((230 ∷ 160 ∷ 188 ∷ 229 ∷ 188 ∷ 143 ∷ []) ++ (codes "addgroup:groupid"))),
    )
    ∷ (
      codes "groupchat",
      (231 ∷ 190 ∷ 164 ∷ 232 ∷ 129 ∷ 138 ∷ [])
          ++ (codes ", "
              ++ ((230 ∷ 160 ∷ 188 ∷ 229 ∷ 188 ∷ 143 ∷ []) ++ (codes "groupchat:groupid:message"))),
    )
    ∷ (
      codes "logout",
      (230 ∷ 179 ∷ 168 ∷ 233 ∷ 148 ∷ 128 ∷ [])
          ++ (codes ", " ++ ((230 ∷ 160 ∷ 188 ∷ 229 ∷ 188 ∷ 143 ∷ []) ++ (codes "logout"))),
    )
    ∷ []

-- The values of `commandHandlerMap`.
pub data Command : Type 0 where
  help_command chat_command addfriend_command creategroup_command : Command
  addgroup_command groupchat_command logout_command : Command

-- `commandHandlerMap`
abbrev pub command_handler_map : List (Bytes × Command)
command_handler_map =
    (codes "help", help_command)
    ∷ (codes "chat", chat_command)
    ∷ (codes "addfriend", addfriend_command)
    ∷ (codes "creategroup", creategroup_command)
    ∷ (codes "addgroup", addgroup_command)
    ∷ (codes "groupchat", groupchat_command)
    ∷ (codes "logout", logout_command)
    ∷ []

abbrev pub find_handler : Bytes → List (Bytes × Command) → Option Command
find_handler command [] = none
find_handler command ((name, h) ∷ m) =
    if bytes_eq name command then some h else find_handler command m

-- `find(":")`, with what stands before and behind it.
unfoldable pub split_colon : Bytes → Option (Bytes × Bytes)
split_colon [] = none
split_colon (c ∷ s) =
    let rest = split_colon s in
    if c == b':' then some ([], s) else elim rest [ none ↦ none | some p ↦ some (c ∷ p.0, p.1) ]

-- What `localtime` gives.
pub record Tm : Type 0 where
  pub year : ℕ
  pub mon : ℕ
  pub mday : ℕ
  pub hour : ℕ
  pub min : ℕ
  pub sec : ℕ

-- `%02d`
abbrev pub two_digits : ℕ → Bytes
two_digits n = if ltb n 10 then b'0' ∷ decimal n else decimal n

pub get_current_time : Tm → Bytes
get_current_time tm =
    decimal (tm.year + 1900)
    ++ (b'-' ∷ two_digits (tm.mon + 1)
        ++ (b'-' ∷ two_digits tm.mday
            ++ (b' ' ∷ two_digits tm.hour
                ++ (b':' ∷ two_digits tm.min ++ (b':' ∷ two_digits tm.sec)))))
