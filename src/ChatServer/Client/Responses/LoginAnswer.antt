-- ===== src/ChatServer/Client/Responses/LoginAnswer.antt =====
-- What the client keeps of the answer to a login, ChatServer/src/client/clientservice.cpp.
use cpp_tiny_lab.Base.{
  read_all, read_all-map, ◌>>=◌, ◌+◌, ◌≡◌, refl, ap, sym, ◌∙◌, true, Option, none, some, List, [],
  ◌∷◌, ◌++◌, map, All, arith, append-nil, some-injective,
}
use cpp_tiny_lab.Base.Bytes.{Bytes, codes, bytes_eq}
use cpp_tiny_lab.Base.Int.{pos}
use cpp_tiny_lab.ChatServer.{login_msg_ack, User, Group}
use cpp_tiny_lab.ChatServer.Json.{JsonLibrary, IsJson, int, text, texts, Value, lookup}
use cpp_tiny_lab.ChatServer.Answers.{friend_fields, answer_fields, friend_text, group_text}
use cpp_tiny_lab.ChatServer.Client.{Client}
use cpp_tiny_lab.ChatServer.Client.Responses.{
  read_friend, read_group, read_friends, read_groups, offline_line, show_offline, login_accepted,
  do_login_response, handle_type, read_task_handler, show_current_user_data,
}
use cpp_tiny_lab.ChatServer.Client.Responses.Reading.{
  without_password, group_public, IsGroupText, read_friend-friend_fields, read_group-group_fields,
}

-- A vector that is not empty has its field.
abbrev field : List Bytes → Option Value
field [] = none
field (s ∷ ss) = some (texts (s ∷ ss))

lookup-friends :
    (user : User) (m f g : List Bytes)
    → lookup (codes "friends") (answer_fields user m f g) ≡ field f
unfolding bytes_eq
lookup-friends user m f g = ground arith

lookup-groups :
    (user : User) (m f g : List Bytes)
    → lookup (codes "groups") (answer_fields user m f g) ≡ field g
unfolding bytes_eq
lookup-groups user m f g = ground arith

lookup-offlinemsg :
    (user : User) (m f g : List Bytes)
    → lookup (codes "offlinemsg") (answer_fields user m f g) ≡ field m
unfolding bytes_eq
lookup-offlinemsg user m f g = ground arith

lookup-id :
    (user : User) (m f g : List Bytes)
    → lookup (codes "id") (answer_fields user m f g) ≡ some (int user.id)
unfolding bytes_eq
lookup-id user m f g = ground arith

lookup-name :
    (user : User) (m f g : List Bytes)
    → lookup (codes "name") (answer_fields user m f g) ≡ some (text user.name)
unfolding bytes_eq
lookup-name user m f g = ground arith

lookup-msgid :
    (user : User) (m f g : List Bytes)
    → lookup (codes "msgid") (answer_fields user m f g) ≡ some (int login_msg_ack)
unfolding bytes_eq
lookup-msgid user m f g = ground arith

lookup-errno :
    (user : User) (m f g : List Bytes)
    → lookup (codes "errno") (answer_fields user m f g) ≡ some (int (pos 0))
unfolding bytes_eq
lookup-errno user m f g = ground arith

-- A list of the client, if the answer has one, or the list from before.
abbrev pub replaced {ℓ} : {A : Type ℓ} → List A → List A → List A
replaced old [] = old
replaced old (x ∷ xs) = x ∷ xs

-- The client behind the answer.
abbrev pub logged_in : User → List User → List Group → List Bytes → Client → Client
logged_in user friends groups lines c =
    let c' = show_current_user_data (record c {
      current_user = record c.current_user { id = user.id; name = user.name };
      friend_list = replaced c.friend_list (map without_password friends);
      group_list = replaced c.group_list (map group_public groups);
    }) in
    record c' { printed = c'.printed ++ lines; is_login_success = true; rwsem = c'.rwsem + 1 }

module _ (library : JsonLibrary) (json : IsJson library) where
  open library use {Json, is_utf8, parse, dump, object}
  open json use {parse-dump, get_int-object, get_string-object, get_texts-object, contains-object}

  read_friends-answer :
      (user : User) (m g : List Bytes) (friends : List User) (c : Client)
      → All (λ u. is_utf8 (friend_fields u) ≡ true) friends
      → read_friends library (object (answer_fields user m (map (friend_text library) friends) g)) c
        ≡ some (record c { friend_list = replaced c.friend_list (map without_password friends) })
  unfolding read_friends
  read_friends-answer user m g [] c h = rw (contains-object, lookup-friends, read_friends) refl
  read_friends-answer user m g (u ∷ us) c h =
      rw (contains-object, get_texts-object, lookup-friends, read_friends)
        (ap (λ (o : Option (List User)). o >>= λ us. some (record c { friend_list = us }))
          (read_all-map (read_friend library) (friend_text library) without_password _
            (read_friend-friend_fields library json) (u ∷ us) h))

  read_groups-answer :
      (user : User) (m f : List Bytes) (groups : List Group) (c : Client)
      → All (IsGroupText library) groups
      → read_groups library (object (answer_fields user m f (map (group_text library) groups))) c
        ≡ some (record c { group_list = replaced c.group_list (map group_public groups) })
  unfolding read_groups
  read_groups-answer user m f [] c h = rw (contains-object, lookup-groups, read_groups) refl
  read_groups-answer user m f (g ∷ gs) c h =
      rw (contains-object, get_texts-object, lookup-groups, read_groups)
        (ap (λ (o : Option (List Group)). o >>= λ gs. some (record c { group_list = gs }))
          (read_all-map (read_group library) (group_text library) group_public _
            (read_group-group_fields library json) (g ∷ gs) h))

  show_offline-answer :
      (user : User) (m f g lines : List Bytes) (c : Client)
      → read_all (offline_line library) m ≡ some lines
      → show_offline library (object (answer_fields user m f g)) c
        ≡ some (record c { printed = c.printed ++ lines })
  unfolding show_offline read_all
  show_offline-answer user [] f g lines c e =
      rw (contains-object, lookup-offlinemsg, show_offline)
        (ap (λ ls. some (record c { printed = ls }))
          (sym (append-nil c.printed) ∙ ap (λ ls. c.printed ++ ls) (some-injective _ _ e)))
  show_offline-answer user (m ∷ ms) f g lines c e =
      rw (contains-object, get_texts-object, lookup-offlinemsg, show_offline)
        (ap (λ (o : Option (List Bytes)). o >>= λ ls. some (record c { printed = c.printed ++ ls }))
          e)

  login_accepted-answer :
      (user : User) (messages lines : List Bytes) (friends : List User) (groups : List Group)
      (c : Client)
      → All (λ u. is_utf8 (friend_fields u) ≡ true) friends
      → All (IsGroupText library) groups
      → read_all (offline_line library) messages ≡ some lines
      → login_accepted library
          (object (
            answer_fields user messages
              (map (friend_text library) friends)
              (map (group_text library) groups)))
          c
        ≡ some (record (logged_in user friends groups lines c) { rwsem = c.rwsem })
  unfolding login_accepted show_current_user_data
  login_accepted-answer user messages lines friends groups c hf hg e =
      rw
        (
          get_int-object,
          get_string-object,
          lookup-id,
          lookup-name,
          read_friends-answer user messages _ friends _ hf,
          read_groups-answer user messages _ groups _ hg,
          show_offline-answer user messages _ _ lines _ e,
          login_accepted,
        )
        refl

  do_login_response-answer :
      (user : User) (m f g : List Bytes) (c : Client)
      → do_login_response library (object (answer_fields user m f g)) c
        ≡ login_accepted library (object (answer_fields user m f g)) c
  unfolding do_login_response
  do_login_response-answer user m f g c = rw (get_int-object, lookup-errno, do_login_response) refl

  -- A client that receives the text of a login that succeeded, its texts being UTF-8 and its stored
  -- messages readable, takes over the id and the name, the friends and the groups with their users,
  -- except that a list that is empty in the answer stays as it was; it shows all that and the stored
  -- messages, marks the success and posts the semaphore.
  pub read_task_handler-answer :
      (user : User) (messages lines : List Bytes) (friends : List User) (groups : List Group)
      (c : Client)
      → let fields =
          answer_fields user messages
            (map (friend_text library) friends)
            (map (group_text library) groups) in
        is_utf8 fields ≡ true
        → All (λ u. is_utf8 (friend_fields u) ≡ true) friends
        → All (IsGroupText library) groups
        → read_all (offline_line library) messages ≡ some lines
        → read_task_handler library (dump (object fields)) c
          ≡ some (logged_in user friends groups lines c)
  unfolding read_task_handler handle_type show_current_user_data
  read_task_handler-answer user messages lines friends groups c h hf hg e =
      rw
        (
          parse-dump _ h,
          get_int-object,
          lookup-msgid,
          read_task_handler,
          do_login_response-answer,
          login_accepted-answer user messages lines friends groups c hf hg e,
        )
        refl
