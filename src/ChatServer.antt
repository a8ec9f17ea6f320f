-- ===== src/ChatServer.antt =====
-- ChatServer/: a chat server over muduo, JSON and MySQL. This file has the values that its parts share.
pub mod Json
pub mod Answers
pub mod Models
pub mod Client
pub mod Service
pub mod Main
pub mod Talk
pub mod Overrun
use cpp_tiny_lab.Base.{ℕ, List, []}
use cpp_tiny_lab.Base.Bytes.{Bytes, codes}
use cpp_tiny_lab.Base.Int.{ℤ, pos, minus_one}

-- `enum EnMsgType`, from 1.
abbrev pub login_msg : ℤ
login_msg = pos 1

abbrev pub logout_msg : ℤ
logout_msg = pos 2

abbrev pub reg_msg : ℤ
reg_msg = pos 3

abbrev pub login_msg_ack : ℤ
login_msg_ack = pos 4

abbrev pub reg_msg_ack : ℤ
reg_msg_ack = pos 5

abbrev pub one_chat_msg : ℤ
one_chat_msg = pos 6

abbrev pub add_friend_msg : ℤ
add_friend_msg = pos 7

abbrev pub create_group_msg : ℤ
create_group_msg = pos 8

abbrev pub add_group_msg : ℤ
add_group_msg = pos 9

abbrev pub group_chat_msg : ℤ
group_chat_msg = pos 10

-- `class User`
pub record User : Type 0 where
  pub id : ℤ
  pub name : Bytes
  pub password : Bytes
  pub state : Bytes

-- The constructor's default arguments.
abbrev pub default_user : User
default_user = record { id = minus_one; name = []; password = []; state = codes "offline" }

-- `class GroupUser`, which extends `User`
pub record GroupUser : Type 0 where
  pub user : User
  pub role : Bytes

-- `class Group`
pub record Group : Type 0 where
  pub id : ℤ
  pub name : Bytes
  pub desc : Bytes
  pub users : List GroupUser
