-- ===== src/ChatServer/Client/Responses/Messages.antt =====
-- The chat messages that the client shows, ChatServer/src/client/clientservice.cpp.
use cpp_tiny_lab.Base.{
  ◌≡◌, refl, arith, Bool, true, false, none, some, [], ◌∷◌, ◌++◌, ◌+◌, ◌⊎◌, if◌then◌else◌,
}
use cpp_tiny_lab.Base.Bytes.{Bytes, codes, bytes_eq}
use cpp_tiny_lab.Base.Int.{ℤ}
use cpp_tiny_lab.Base.Numerals.{decimal_ℤ}
use cpp_tiny_lab.ChatServer.Json.{JsonLibrary, IsJson, Fields, lookup, as_int, as_string}
use cpp_tiny_lab.ChatServer.{one_chat_msg}
use cpp_tiny_lab.ChatServer.Answers.{registered_fields}
use cpp_tiny_lab.ChatServer.Client.{Client, print, Tm, get_current_time}
use cpp_tiny_lab.ChatServer.Client.Commands.{chat_fields, groupchat_fields}
use cpp_tiny_lab.ChatServer.Client.Responses.{
  group_mark, said, said_in_group, do_reg_response, handle_type, read_task_handler,
}

abbrev pub message_line : Tm → ℤ → Bytes → Bytes → Bytes
message_line tm id name msg =
    get_current_time tm
    ++ (codes " [" ++ (decimal_ℤ id ++ (b']' ∷ name ++ (codes " said: " ++ msg))))

abbrev pub group_message_line : Tm → ℤ → Bytes → ℤ → Bytes → Bytes
group_message_line tm id name groupid msg =
    group_mark ++ (b'[' ∷ decimal_ℤ groupid ++ (codes "]:" ++ message_line tm id name msg))

-- The line that the client prints for the answer to a registration.
abbrev pub registered_line : Bool → ℤ → Bytes
registered_line state id =
    if state
    then codes "name register success, userid is " ++ (decimal_ℤ id ++ codes ", do not forget it!")
    else codes "name is already exist, register error!"

-- A chat message that lacks one of the texts that are shown.
abbrev pub LacksText : Fields → Type 0
LacksText fields =
    (as_string (lookup (codes "time") fields) ≡ none)
    ⊎ (as_string (lookup (codes "name") fields) ≡ none)
    ⊎ (as_string (lookup (codes "msg") fields) ≡ none)

module _ (library : JsonLibrary) (json : IsJson library) where
  open library use {is_utf8, dump, object}
  open json use {parse-dump, get_int-object, get_string-object, show-object}

  pub read_task_handler-chat :
      (tm : Tm) (id : ℤ) (name : Bytes) (to : ℤ) (msg : Bytes) (d : Client)
      → is_utf8 (chat_fields tm id name to msg) ≡ true
      → read_task_handler library (dump (object (chat_fields tm id name to msg))) d
        ≡ some (print (message_line tm id name msg) d)
  unfolding read_task_handler handle_type said bytes_eq
  read_task_handler-chat tm id name to msg d u =
      rw
        (
          parse-dump _ u,
          get_int-object,
          get_string-object,
          get_string-object,
          get_string-object,
          show-object (chat_fields tm id name to msg) (codes "id") id refl,
          read_task_handler,
          handle_type,
          said,
        )
        refl

  pub read_task_handler-groupchat :
      (tm : Tm) (id : ℤ) (name : Bytes) (groupid : ℤ) (msg : Bytes) (d : Client)
      → is_utf8 (groupchat_fields tm id name groupid msg) ≡ true
      → read_task_handler library (dump (object (groupchat_fields tm id name groupid msg))) d
        ≡ some (print (group_message_line tm id name groupid msg) d)
  unfolding read_task_handler handle_type said said_in_group bytes_eq
  read_task_handler-groupchat tm id name groupid msg d u =
      rw
        (
          parse-dump _ u,
          get_int-object,
          get_string-object,
          get_string-object,
          get_string-object,
          show-object (groupchat_fields tm id name groupid msg) (codes "id") id refl,
          show-object (groupchat_fields tm id name groupid msg) (codes "groupid") groupid refl,
          read_task_handler,
          handle_type,
          said_in_group,
          said,
        )
        refl

  pub read_task_handler-registered :
      (state : Bool) (id : ℤ) (d : Client)
      → is_utf8 (registered_fields state id) ≡ true
      → read_task_handler library (dump (object (registered_fields state id))) d
        ≡ some
            (record d { printed = d.printed ++ registered_line state id ∷ []; rwsem = d.rwsem + 1 })
  unfolding read_task_handler handle_type do_reg_response print bytes_eq
  read_task_handler-registered true id d u =
      rw
        (
          parse-dump _ u,
          get_int-object (registered_fields true id) (codes "msgid"),
          get_int-object (registered_fields true id) (codes "errno"),
          show-object (registered_fields true id) (codes "id") id refl,
          read_task_handler,
          handle_type,
          do_reg_response,
        )
        refl
  read_task_handler-registered false id d u =
      rw
        (
          parse-dump _ u,
          get_int-object (registered_fields false id) (codes "msgid"),
          get_int-object (registered_fields false id) (codes "errno"),
          read_task_handler,
          handle_type,
          do_reg_response,
        )
        refl

  said-LacksText : (fields : Fields) → LacksText fields → said library (object fields) ≡ none
  unfolding said
  said-LacksText fields h = ground (
    arith,
    get_string-object fields (codes "time"),
    get_string-object fields (codes "name"),
    get_string-object fields (codes "msg"),
  )

  pub read_task_handler-LacksText :
      (fields : Fields) (d : Client)
      → is_utf8 fields ≡ true
      → as_int (lookup (codes "msgid") fields) ≡ some one_chat_msg
      → LacksText fields
      → read_task_handler library (dump (object fields)) d ≡ none
  unfolding read_task_handler handle_type
  read_task_handler-LacksText fields d u m h =
      rw
        (
          parse-dump fields u,
          get_int-object fields (codes "msgid"),
          m,
          said-LacksText fields h,
          read_task_handler,
          handle_type,
        )
        refl
