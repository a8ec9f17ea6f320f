-- ===== src/ChatServer/Service/Protocol.antt =====
-- What the handlers of ChatServer/src/server/chatservice.cpp send, against what the client reads.
pub mod Talks
pub mod Kept
use cpp_tiny_lab.Base.{◌≡◌, true, some, ◌∷◌, All, ℕ, Bool}
use cpp_tiny_lab.Base.Bytes.{Bytes, codes}
use cpp_tiny_lab.Base.Int.{ℤ}
use cpp_tiny_lab.ChatServer.{login_msg, one_chat_msg, group_chat_msg}
use cpp_tiny_lab.ChatServer.Answers.{
  wrong_password, already_online, friend_fields, registered_fields, refusal_fields,
}
use cpp_tiny_lab.ChatServer.Json.{JsonLibrary, IsJson, Fields, lookup, as_int}
use cpp_tiny_lab.ChatServer.Models.{Models}
use cpp_tiny_lab.ChatServer.Service.Receive.{the_messages, the_friends, the_groups, the_answer}
use cpp_tiny_lab.ChatServer.Client.Responses.Shapes.{IsSaid, IsChatText}
use cpp_tiny_lab.ChatServer.Client.Responses.Reading.{IsGroupText}

-- The fields of a request, as the commands of the client make them: a chat message has the texts that
-- are shown.
pub record IsRequest (library : JsonLibrary) (fields : Fields) : Type 0 where
  pub utf8 : library.is_utf8 fields ≡ true
  pub of_chat : as_int (lookup (codes "msgid") fields) ≡ some one_chat_msg → IsSaid fields
  pub of_groupchat : as_int (lookup (codes "msgid") fields) ≡ some group_chat_msg → IsSaid fields

-- The texts that the program has itself are UTF-8.
pub record IsWritable (library : JsonLibrary) : Type 0 where
  pub wrong_password_utf8 : library.is_utf8 (refusal_fields 1 wrong_password) ≡ true
  pub already_online_utf8 : library.is_utf8 (refusal_fields 2 already_online) ≡ true
  pub registered_utf8 :
      (state : Bool) (id : ℤ) → library.is_utf8 (registered_fields state id) ≡ true

-- What a login of the user reads from the database: texts in UTF-8, and chat messages among the
-- stored ones.
pub record IsReadable (models : Models) (library : JsonLibrary) (json : IsJson library) (id : ℤ)
    (db : models.Db) : Type 0 where
  pub answer_utf8 : library.is_utf8 (the_answer models library json id db) ≡ true
  pub messages : All (IsChatText library) (the_messages models library json id db).0
  pub friends :
      All (λ u. library.is_utf8 (friend_fields u) ≡ true) (the_friends models library json id db).0
  pub groups : All (IsGroupText library) (the_groups models library json id db).0

-- A request on a database: if it is a login, what it reads is such.
abbrev pub IsServed :
    (models : Models) (library : JsonLibrary) → IsJson library → Fields → models.Db → Type 0
IsServed models library json fields db =
    (id : ℤ)
    → as_int (lookup (codes "msgid") fields) ≡ some login_msg
    → as_int (lookup (codes "id") fields) ≡ some id
    → IsReadable models library json id db
