-- ===== src/ChatServer/Client/Commands/LoginOrder.antt =====
-- The two threads of the client at a login, ChatServer/src/client/clientservice.cpp.
use cpp_tiny_lab.Base.{
  read_all, ◌>>=◌, ◌≡◌, refl, ap, true, Option, some, List, [], ◌∷◌, ◌++◌, map, All,
}
use cpp_tiny_lab.Base.Bytes.{Bytes}
use cpp_tiny_lab.Base.Int.{ℤ}
use cpp_tiny_lab.ChatServer.{User, Group}
use cpp_tiny_lab.ChatServer.Json.{JsonLibrary, IsJson}
use cpp_tiny_lab.ChatServer.Answers.{friend_fields, answer_fields, friend_text, group_text}
use cpp_tiny_lab.ChatServer.Client.{Client, login_sent, chatting, choosing}
use cpp_tiny_lab.ChatServer.Client.Commands.{main_step, help, login_fields, login_choice, get_start}
use cpp_tiny_lab.ChatServer.Client.Responses.{
  offline_line, read_task_handler, show_current_user_data,
}
use cpp_tiny_lab.ChatServer.Client.Responses.Reading.{IsGroupText}
use cpp_tiny_lab.ChatServer.Client.Responses.LoginAnswer.{read_task_handler-answer}

abbrev pub sent_login : Client → Client
sent_login c = record c { pc = login_sent; rwsem = 0 }

module _ (library : JsonLibrary) (json : IsJson library) where
  open library use {is_utf8, dump, object}

  -- A client that has sent a login, and gets the answer of a login that succeeded, comes to the chat
  -- menu if its main thread has reset the mark of success before the answer is handled, but back to
  -- the start menu, without an error, if the answer is handled first.
  pub login_order :
      (user : User) (messages lines : List Bytes) (friends : List User) (groups : List Group)
      (c : Client)
      → let fields =
          answer_fields user messages
            (map (friend_text library) friends)
            (map (group_text library) groups) in
        is_utf8 fields ≡ true
        → All (λ u. is_utf8 (friend_fields u) ≡ true) friends
        → All (IsGroupText library) groups
        → read_all (offline_line library) messages ≡ some lines
        → let read = read_task_handler library (dump (object fields)) in
          (after before : Client) × ((main_step (sent_login c) >>= read >>= main_step) ≡ some after)
          × (after.pc ≡ chatting)
          × ((read (sent_login c) >>= main_step >>= main_step) ≡ some before)
          × (before.pc ≡ choosing)
  unfolding main_step show_current_user_data help
  login_order user messages lines friends groups c u hf hg e = (
    _,
    _,
    ap (λ (o : Option Client). o >>= main_step)
        (read_task_handler-answer library json user messages lines friends groups _ u hf hg e),
    refl,
    ap (λ (o : Option Client). o >>= main_step >>= main_step)
        (read_task_handler-answer library json user messages lines friends groups _ u hf hg e),
    refl,
  )

  pub get_start-login :
      (id : ℤ) (pwd : Bytes) (c : Client)
      → c.rwsem ≡ 0
      → get_start library (login_choice id pwd) c
        ≡ sent_login (record c { sent = c.sent ++ dump (object (login_fields id pwd)) ∷ [] })
  unfolding get_start
  get_start-login id pwd c h =
      ap
        (λ n. record c {
          pc = login_sent;
          rwsem = n;
          sent = c.sent ++ dump (object (login_fields id pwd)) ∷ [];
        })
        h

  -- The main thread resets the mark before the answer is handled: the chat menu of the user.
  pub sent_login-enters :
      (user : User) (messages lines : List Bytes) (friends : List User) (groups : List Group)
      (c : Client)
      → let fields =
          answer_fields user messages
            (map (friend_text library) friends)
            (map (group_text library) groups) in
        is_utf8 fields ≡ true
        → All (λ u. is_utf8 (friend_fields u) ≡ true) friends
        → All (IsGroupText library) groups
        → read_all (offline_line library) messages ≡ some lines
        → (d : Client) × ((main_step (sent_login c)
              >>= read_task_handler library (dump (object fields))
              >>= main_step)
            ≡ some d)
          × (d.pc ≡ chatting)
          × (d.current_user.id ≡ user.id)
          × (d.current_user.name ≡ user.name)
          × (d.sent ≡ c.sent)
  unfolding main_step show_current_user_data help
  sent_login-enters user messages lines friends groups c u hf hg e = (
    _,
    ap (λ (o : Option Client). o >>= main_step)
        (read_task_handler-answer library json user messages lines friends groups _ u hf hg e),
    refl,
    refl,
    refl,
    refl,
  )
