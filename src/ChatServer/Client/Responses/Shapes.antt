-- ===== src/ChatServer/Client/Responses/Shapes.antt =====
-- Which texts the client reads without an exception, ChatServer/src/client/clientservice.cpp.
use cpp_tiny_lab.Base.{
  read_all, ℕ, suc, ◌≡◌, ◌+◌, refl, Bool, true, false, some, List, [], ◌∷◌, ◌++◌, map, All, arith,
}
use cpp_tiny_lab.Base.Bytes.{Bytes, codes, bytes_eq}
use cpp_tiny_lab.Base.Int.{ℤ, pos, eq_ℤ}
use cpp_tiny_lab.ChatServer.{one_chat_msg, group_chat_msg, User, Group}
use cpp_tiny_lab.ChatServer.Answers.{
  friend_fields, answer_fields, friend_text, group_text, registered_fields, refusal_fields,
}
use cpp_tiny_lab.ChatServer.Json.{JsonLibrary, IsJson, Fields, lookup, as_int, as_string}
use cpp_tiny_lab.ChatServer.Client.{Client, print}
use cpp_tiny_lab.ChatServer.Client.Responses.{
  group_mark, said, said_in_group, do_login_response, handle_type, offline_line, read_task_handler,
}
use cpp_tiny_lab.ChatServer.Client.Responses.Messages.{read_task_handler-registered}
use cpp_tiny_lab.ChatServer.Client.Responses.LoginAnswer.{read_task_handler-answer}
use cpp_tiny_lab.ChatServer.Client.Responses.Reading.{IsGroupText}

-- The texts that the client shows of a chat message are there.
pub record IsSaid (fields : Fields) : Type 0 where
  pub time : Bytes
  pub name : Bytes
  pub msg : Bytes
  pub has_time : as_string (lookup (codes "time") fields) ≡ some time
  pub has_name : as_string (lookup (codes "name") fields) ≡ some name
  pub has_msg : as_string (lookup (codes "msg") fields) ≡ some msg

module _ (library : JsonLibrary) where
  open library use {is_utf8, dump, object}

  -- A message to a user or to a group.
  pub data IsChatText : Bytes → Type 0 where
    chat :
        (fields : Fields)
        → is_utf8 fields ≡ true
        → as_int (lookup (codes "msgid") fields) ≡ some one_chat_msg
        → IsSaid fields
        → IsChatText (dump (object fields))
    groupchat :
        (fields : Fields)
        → is_utf8 fields ≡ true
        → as_int (lookup (codes "msgid") fields) ≡ some group_chat_msg
        → IsSaid fields
        → IsChatText (dump (object fields))

  -- What the server may send to a client.
  pub data IsReply : Bytes → Type 0 where
    relayed : {b : Bytes} → IsChatText b → IsReply b
    refused :
        (errno : ℕ) (errmsg : Bytes)
        → is_utf8 (refusal_fields (suc errno) errmsg) ≡ true
        → IsReply (dump (object (refusal_fields (suc errno) errmsg)))
    registered :
        (state : Bool) (id : ℤ)
        → is_utf8 (registered_fields state id) ≡ true
        → IsReply (dump (object (registered_fields state id)))
    accepted :
        (user : User) (messages : List Bytes) (friends : List User) (groups : List Group)
        → is_utf8 (
            answer_fields user messages
              (map (friend_text library) friends)
              (map (group_text library) groups))
          ≡ true
        → All (λ u. is_utf8 (friend_fields u) ≡ true) friends
        → All (IsGroupText library) groups
        → All IsChatText messages
        → IsReply (
            dump (
              object (
                answer_fields user messages
                  (map (friend_text library) friends)
                  (map (group_text library) groups))))

module _ (library : JsonLibrary) (json : IsJson library) where
  open library use {is_utf8, parse, dump, object}
  open json use {parse-dump, get_int-object, get_string-object}

  said-IsSaid :
      (fields : Fields)
      → IsSaid fields
      → (line : Bytes) × (said library (object fields) ≡ some line)
  unfolding said
  said-IsSaid fields h = (
    h.time
        ++ (codes " ["
            ++ (library.show (object fields) (codes "id")
                ++ (b']' ∷ h.name ++ (codes " said: " ++ h.msg)))),
    rw
        (
          get_string-object fields (codes "time"),
          h.has_time,
          get_string-object fields (codes "name"),
          h.has_name,
          get_string-object fields (codes "msg"),
          h.has_msg,
          said,
        )
        refl,
  )

  said_in_group-IsSaid :
      (fields : Fields)
      → IsSaid fields
      → (line : Bytes) × (said_in_group library (object fields) ≡ some line)
  unfolding said_in_group
  said_in_group-IsSaid fields h =
      let (line, e) = said-IsSaid fields h in
      (
        group_mark
            ++ (b'[' ∷ library.show (object fields) (codes "groupid") ++ (codes "]:" ++ line)),
        rw (e, said_in_group) refl,
      )

  -- A stored message can be shown.
  offline_line-IsChatText :
      (b : Bytes) → IsChatText library b → (line : Bytes) × (offline_line library b ≡ some line)
  unfolding offline_line
  offline_line-IsChatText b (chat fields u m h) =
      let (line, e) = said-IsSaid fields h in
      (line, rw (parse-dump fields u, get_int-object fields (codes "msgid"), m, offline_line) e)
  offline_line-IsChatText b (groupchat fields u m h) =
      let (line, e) = said_in_group-IsSaid fields h in
      (line, rw (parse-dump fields u, get_int-object fields (codes "msgid"), m, offline_line) e)

  offline_lines-IsChatText :
      (messages : List Bytes)
      → All (IsChatText library) messages
      → (lines : List Bytes) × (read_all (offline_line library) messages ≡ some lines)
  unfolding read_all
  offline_lines-IsChatText [] h = ([], refl)
  offline_lines-IsChatText (m ∷ ms) h =
      let (line, e) = offline_line-IsChatText m h.0 in
      let (lines, f) = offline_lines-IsChatText ms h.1 in (line ∷ lines, rw (e, f, read_all) refl)

  read-IsChatText :
      (b : Bytes) (d : Client)
      → IsChatText library b
      → (d' : Client) × (read_task_handler library b d ≡ some d')
  unfolding read_task_handler handle_type
  read-IsChatText b d (chat fields u m h) =
      let (line, e) = said-IsSaid fields h in
      (
        print line d,
        rw
            (
              parse-dump fields u,
              get_int-object fields (codes "msgid"),
              m,
              e,
              read_task_handler,
              handle_type,
            )
            refl,
      )
  read-IsChatText b d (groupchat fields u m h) =
      let (line, e) = said_in_group-IsSaid fields h in
      (
        print line d,
        rw
            (
              parse-dump fields u,
              get_int-object fields (codes "msgid"),
              m,
              e,
              read_task_handler,
              handle_type,
            )
            refl,
      )

  refused_test : (n : ℕ) → eq_ℤ (pos (suc n)) (pos 0) ≡ false
  refused_test n = ground arith

  read-refused :
      (errno : ℕ) (errmsg : Bytes) (d : Client)
      → is_utf8 (refusal_fields (suc errno) errmsg) ≡ true
      → (d' : Client) × (read_task_handler library
            (dump (object (refusal_fields (suc errno) errmsg)))
            d
          ≡ some d')
  unfolding read_task_handler handle_type do_login_response bytes_eq
  read-refused errno errmsg d u =
      let fields = refusal_fields (suc errno) errmsg in
      let c = print (library.show (object fields) (codes "errmsg")) d in
      (
        record c { is_login_success = false; rwsem = c.rwsem + 1 },
        rw
            (
              parse-dump fields u,
              get_int-object fields (codes "msgid"),
              get_int-object fields (codes "errno"),
              refused_test errno,
              read_task_handler,
              handle_type,
              do_login_response,
            )
            refl,
      )

  -- A client that receives a text which the server may send handles it without an exception.
  pub read-IsReply :
      (b : Bytes) (d : Client)
      → IsReply library b
      → (d' : Client) × (read_task_handler library b d ≡ some d')
  read-IsReply b d (relayed r) = read-IsChatText b d r
  read-IsReply b d (refused errno errmsg u) = read-refused errno errmsg d u
  read-IsReply b d (registered state id u) =
      (_, read_task_handler-registered library json state id d u)
  read-IsReply b d (accepted user messages friends groups u hf hg hm) =
      let (lines, e) = offline_lines-IsChatText messages hm in
      (_, read_task_handler-answer library json user messages lines friends groups d u hf hg e)
