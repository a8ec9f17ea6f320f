-- ===== src/ChatServer/Client/Commands.antt =====
-- The main thread of the client: `getStart`, `mainMenu` and the command handlers of
-- ChatServer/src/client/clientservice.cpp.
pub mod Lines
pub mod LoginOrder
pub mod Registration
use cpp_tiny_lab.Base.{
  ℕ, zero, suc, ◌+◌, Bool, true, false, Option, none, some, List, [], ◌∷◌, ◌++◌, if◌then◌else◌,
}
use cpp_tiny_lab.Base.Bytes.{Bytes, codes}
use cpp_tiny_lab.Base.Int.{ℤ}
use cpp_tiny_lab.Base.Numerals.{atoi}
use cpp_tiny_lab.ChatServer.{
  login_msg, logout_msg, reg_msg, one_chat_msg, add_friend_msg, create_group_msg, add_group_msg,
  group_chat_msg,
}
use cpp_tiny_lab.ChatServer.Json.{int, text, Fields, JsonLibrary}
use cpp_tiny_lab.ChatServer.Client.{
  ClientPc, unstarted, choosing, login_sent, login_wait, register_wait, chatting, quitted, Client,
  print, command_map, Command, help_command, chat_command, addfriend_command, creategroup_command,
  addgroup_command, groupchat_command, logout_command, command_handler_map, find_handler,
  split_colon, Tm, get_current_time,
}

abbrev pub help_lines : List (Bytes × Bytes) → List Bytes
help_lines [] = [] ∷ []
help_lines ((name, about) ∷ m) = (name ++ (codes " : " ++ about)) ∷ help_lines m

pub help : Client → Client
help c = record c {
  printed = c.printed ++ (codes "show command list >>> " ∷ help_lines command_map);
}

-- What the messages hold.
abbrev pub chat_fields : Tm → ℤ → Bytes → ℤ → Bytes → Fields
chat_fields tm id name to msg =
    (codes "msgid", int one_chat_msg)
    ∷ (codes "id", int id)
    ∷ (codes "name", text name)
    ∷ (codes "to", int to)
    ∷ (codes "msg", text msg)
    ∷ (codes "time", text (get_current_time tm))
    ∷ []

abbrev pub groupchat_fields : Tm → ℤ → Bytes → ℤ → Bytes → Fields
groupchat_fields tm id name groupid msg =
    (codes "msgid", int group_chat_msg)
    ∷ (codes "id", int id)
    ∷ (codes "name", text name)
    ∷ (codes "groupid", int groupid)
    ∷ (codes "msg", text msg)
    ∷ (codes "time", text (get_current_time tm))
    ∷ []

abbrev pub creategroup_fields : ℤ → Bytes → Bytes → Fields
creategroup_fields id groupname groupdesc =
    (codes "msgid", int create_group_msg)
    ∷ (codes "id", int id)
    ∷ (codes "groupname", text groupname)
    ∷ (codes "desc", text groupdesc)
    ∷ []

abbrev pub login_fields : ℤ → Bytes → Fields
login_fields id pwd =
    (codes "msgid", int login_msg) ∷ (codes "id", int id) ∷ (codes "password", text pwd) ∷ []

-- What the user enters at the menu.
pub data Choice : Type 0 where
  login_choice : ℤ → Bytes → Choice
  register_choice : Bytes → Bytes → Choice
  quit_choice invalid_choice : Choice

module _ (library : JsonLibrary) where
  open library use {object, dump}

  abbrev pub send_object : Fields → Client → Client
  send_object fields c = record c { sent = c.sent ++ dump (object fields) ∷ [] }

  pub addfriend : Bytes → Client → Client
  addfriend str c =
      send_object
        ((codes "msgid", int add_friend_msg)
          ∷ (codes "id", int c.current_user.id)
          ∷ (codes "friendid", int (atoi str))
          ∷ [])
        c

  pub chat : Tm → Bytes → Client → Client
  chat tm str c = elim (split_colon str) [
    | none ↦ print (codes "chat command invalid!") c
    | some p ↦ send_object (chat_fields tm c.current_user.id c.current_user.name (atoi p.0) p.1) c
  ]

  pub creategroup : Bytes → Client → Client
  creategroup str c = elim (split_colon str) [
    | none ↦ print (codes "creategroup command invalid!") c
    | some p ↦ send_object (creategroup_fields c.current_user.id p.0 p.1) c
  ]

  pub addgroup : Bytes → Client → Client
  addgroup str c =
      send_object
        ((codes "msgid", int add_group_msg)
          ∷ (codes "id", int c.current_user.id)
          ∷ (codes "groupid", int (atoi str))
          ∷ [])
        c

  pub groupchat : Tm → Bytes → Client → Client
  groupchat tm str c = elim (split_colon str) [
    | none ↦ print (codes "groupchat command invalid!") c
    | some p ↦
        send_object (groupchat_fields tm c.current_user.id c.current_user.name (atoi p.0) p.1) c
  ]

  pub logout : Client → Client
  logout c =
      record (send_object
        ((codes "msgid", int logout_msg) ∷ (codes "id", int c.current_user.id) ∷ []) c) {
          is_main_menu_running = false;
          is_login_success = false;
        }

  pub run_command : Command → Tm → Bytes → Client → Client
  run_command help_command tm str c = help c
  run_command chat_command tm str c = chat tm str c
  run_command addfriend_command tm str c = addfriend str c
  run_command creategroup_command tm str c = creategroup str c
  run_command addgroup_command tm str c = addgroup str c
  run_command groupchat_command tm str c = groupchat tm str c
  run_command logout_command tm str c = logout c

  abbrev run_named : Tm → Bytes → Bytes → Client → Client
  run_named tm command str c = elim (find_handler command command_handler_map) [
    | none ↦ print (codes "invalid input command!") c
    | some h ↦ run_command h tm str c
  ]

  -- What one round of `mainMenu` does with the line. Without a colon all of it is the argument too.
  pub run_line : Tm → Bytes → Client → Client
  run_line tm line c = elim (split_colon line) [
    | none ↦ run_named tm line line c
    | some p ↦ run_named tm p.0 p.1 c
  ]

  -- A round of `mainMenu`, and the test of its loop.
  pub main_menu : Tm → Bytes → Client → Client
  main_menu tm line c =
      let c' = run_line tm line c in
      if c'.is_main_menu_running then c' else record c' { pc = choosing }

  -- A round of `getStart` up to the next wait.
  pub get_start : Choice → Client → Client
  get_start (login_choice id pwd) c = record (send_object (login_fields id pwd) c) {
    pc = login_sent;
  }
  get_start (register_choice name pwd) c =
      record (send_object
        ((codes "msgid", int reg_msg)
          ∷ (codes "name", text name)
          ∷ (codes "password", text pwd)
          ∷ [])
        c) { pc = register_wait }
  get_start quit_choice c = record c { pc = quitted }
  get_start invalid_choice c = print (codes "invalid input!") c

-- Behind `sem_wait` in a login.
abbrev pub enter_menu : Client → Client
enter_menu c =
    if c.is_login_success
    then help (record c { is_main_menu_running = true; pc = chatting })
    else record c { pc = choosing }

-- A step of the main thread that needs no input; `none` where it waits.
pub main_step : Client → Option Client
main_step c = elim c.pc [
  | unstarted ↦ none
  | choosing ↦ none
  | login_sent ↦ some (record c { is_login_success = false; pc = login_wait })
  | login_wait ↦ elim c.rwsem [ zero ↦ none | suc n ↦ some (enter_menu (record c { rwsem = n })) ]
  | register_wait ↦ elim c.rwsem [
    | zero ↦ none
    | suc n ↦ some (record c { rwsem = n; pc = choosing })
  ]
  | chatting ↦ none
  | quitted ↦ none
]
