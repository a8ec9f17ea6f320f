-- ===== src/ChatServer/Answers.antt =====
-- The answers to a login and to a registration, as ChatServer/src/server/chatservice.cpp builds them.
use cpp_tiny_lab.Base.{ℕ, Bool, if◌then◌else◌, List, [], ◌∷◌, ◌++◌, map}
use cpp_tiny_lab.Base.Bytes.{Bytes, codes}
use cpp_tiny_lab.Base.Int.{ℤ, pos}
use cpp_tiny_lab.ChatServer.{login_msg_ack, reg_msg_ack, User, GroupUser, Group}
use cpp_tiny_lab.ChatServer.Json.{int, text, texts, Fields, JsonLibrary}

-- `response[key] = vec` where the vector is not empty.
abbrev pub field_unless_empty : Bytes → List Bytes → Fields
field_unless_empty key [] = []
field_unless_empty key (s ∷ ss) = (key, texts (s ∷ ss)) ∷ []

-- The two error messages, in UTF-8, the encoding of the source file.
abbrev pub already_online : Bytes
already_online =
    232 ∷ 175 ∷ 165 ∷ 232 ∷ 180 ∷ 166 ∷ 229 ∷ 143 ∷ 183 ∷ 229 ∷ 183 ∷ 178 ∷ 231 ∷ 187 ∷ 143 ∷ 231
    ∷ 153 ∷ 187 ∷ 229 ∷ 189 ∷ 149 ∷ 44 ∷ 32 ∷ 232 ∷ 175 ∷ 183 ∷ 233 ∷ 135 ∷ 141 ∷ 230 ∷ 150 ∷ 176
    ∷ 232 ∷ 190 ∷ 147 ∷ 229 ∷ 133 ∷ 165 ∷ 230 ∷ 150 ∷ 176 ∷ 232 ∷ 180 ∷ 166 ∷ 229 ∷ 143 ∷ 183 ∷ []

abbrev pub wrong_password : Bytes
wrong_password =
    231 ∷ 148 ∷ 168 ∷ 230 ∷ 136 ∷ 183 ∷ 229 ∷ 144 ∷ 141 ∷ 230 ∷ 136 ∷ 150 ∷ 229 ∷ 175 ∷ 134 ∷ 231
    ∷ 160 ∷ 129 ∷ 233 ∷ 148 ∷ 153 ∷ 232 ∷ 175 ∷ 175 ∷ []

-- The fields of the answer to a login, and of the texts in it.
abbrev pub friend_fields : User → Fields
friend_fields u =
    (codes "id", int u.id) ∷ (codes "name", text u.name) ∷ (codes "state", text u.state) ∷ []

abbrev pub member_fields : GroupUser → Fields
member_fields g =
    (codes "id", int g.user.id)
    ∷ (codes "name", text g.user.name)
    ∷ (codes "state", text g.user.state)
    ∷ (codes "role", text g.role)
    ∷ []

abbrev pub group_fields : Group → List Bytes → Fields
group_fields g users =
    (codes "id", int g.id)
    ∷ (codes "groupname", text g.name)
    ∷ (codes "groupdesc", text g.desc)
    ∷ (codes "users", texts users)
    ∷ []

abbrev pub answer_fields : User → List Bytes → List Bytes → List Bytes → Fields
answer_fields user messages friends groups =
    (codes "msgid", int login_msg_ack)
    ∷ (codes "errno", int (pos 0))
    ∷ (codes "id", int user.id)
    ∷ (codes "name", text user.name)
    ∷ (field_unless_empty (codes "offlinemsg") messages
        ++ (field_unless_empty (codes "friends") friends
            ++ field_unless_empty (codes "groups") groups))

-- The fields of the answer to a login that is refused.
abbrev pub refusal_fields : ℕ → Bytes → Fields
refusal_fields errno errmsg =
    (codes "msgid", int login_msg_ack)
    ∷ (codes "errno", int (pos errno))
    ∷ (codes "errmsg", text errmsg)
    ∷ []

-- The fields of the answer to a registration.
abbrev pub registered_fields : Bool → ℤ → Fields
registered_fields state id =
    (codes "msgid", int reg_msg_ack)
    ∷ (codes "errno", int (if state then pos 0 else pos 1))
    ∷ (codes "id", int id)
    ∷ []

module _ (library : JsonLibrary) where
  open library use {dump, object}

  abbrev pub friend_text : User → Bytes
  friend_text u = dump (object (friend_fields u))

  abbrev pub member_text : GroupUser → Bytes
  member_text g = dump (object (member_fields g))

  abbrev pub group_text : Group → Bytes
  group_text g = dump (object (group_fields g (map member_text g.users)))
