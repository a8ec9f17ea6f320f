-- ===== src/ChatServer/Client/Responses/Reading.antt =====
-- The client reads back what the server wrote, ChatServer/src/client/clientservice.cpp.
use cpp_tiny_lab.Base.{read_all-map, ◌≡◌, refl, true, some, [], map, All}
use cpp_tiny_lab.Base.Bytes.{bytes_eq}
use cpp_tiny_lab.ChatServer.{User, GroupUser, Group}
use cpp_tiny_lab.ChatServer.Json.{JsonLibrary, IsJson}
use cpp_tiny_lab.ChatServer.Answers.{
  friend_fields, member_fields, group_fields, friend_text, member_text, group_text,
}
use cpp_tiny_lab.ChatServer.Client.Responses.{read_friend, read_member, read_group}

-- A user without the password, which the server does not send.
abbrev pub without_password : User → User
without_password u = record u { password = [] }

abbrev pub member_public : GroupUser → GroupUser
member_public g = record g { user = without_password g.user }

abbrev pub group_public : Group → Group
group_public g = record g { users = map member_public g.users }

module _ (library : JsonLibrary) where
  open library use {is_utf8}

  -- The texts of a group and of its members are UTF-8.
  abbrev pub IsGroupText : Group → Type 0
  IsGroupText g =
      (is_utf8 (group_fields g (map (member_text library) g.users)) ≡ true)
      × All (λ m. is_utf8 (member_fields m) ≡ true) g.users

module _ (library : JsonLibrary) (json : IsJson library) where
  open library use {Json, is_utf8, parse, dump, object}
  open json use {parse-dump, get_int-object, get_string-object, get_texts-object, contains-object}

  pub read_friend-friend_fields :
      (u : User)
      → is_utf8 (friend_fields u) ≡ true
      → read_friend library (friend_text library u) ≡ some (without_password u)
  unfolding read_friend bytes_eq
  read_friend-friend_fields u h =
      rw
        (
          parse-dump (friend_fields u) h,
          get_int-object,
          get_string-object,
          get_string-object,
          read_friend,
        )
        refl

  pub read_member-member_fields :
      (g : GroupUser)
      → is_utf8 (member_fields g) ≡ true
      → read_member library (member_text library g) ≡ some (member_public g)
  unfolding read_member bytes_eq
  read_member-member_fields g h =
      rw
        (
          parse-dump (member_fields g) h,
          get_int-object,
          get_string-object,
          get_string-object,
          get_string-object,
          read_member,
        )
        refl

  pub read_group-group_fields :
      (g : Group)
      → IsGroupText library g
      → read_group library (group_text library g) ≡ some (group_public g)
  unfolding read_group bytes_eq
  read_group-group_fields g h =
      rw
        (
          parse-dump (group_fields g (map (member_text library) g.users)) h.0,
          get_int-object,
          get_string-object,
          get_string-object,
          get_texts-object,
          read_all-map (read_member library) (member_text library) member_public _
              read_member-member_fields g.users h.1,
          read_group,
        )
        refl
