-- ===== src/ChatServer/Models.antt =====
-- The interface between the service of ChatServer/src/server/chatservice.cpp and the classes under
-- ChatServer/src/server/model/, and those classes over a database client in the child modules.
pub mod Memory
pub mod Database
pub mod Statements
pub mod Sql
pub mod Tables
pub mod Engine
use cpp_tiny_lab.Base.{Bool, Option, List}
use cpp_tiny_lab.Base.Bytes.{Bytes}
use cpp_tiny_lab.Base.Int.{ℤ}
use cpp_tiny_lab.ChatServer.{User, Group}

-- The methods of UserModel, OfflineMsgModel, FriendModel and GroupModel, as functions of the state
-- of the database. A method that sets the id of its argument returns the argument.
pub record Models : Type 1 where
  pub Db : Type 0
  pub user_insert : User → Db → Bool × User × Db
  pub user_query : ℤ → Db → User × Db
  pub update_state : User → Db → Bool × Db
  pub reset_state : Db → Db
  pub offline_insert : ℤ → Bytes → Db → Db
  pub offline_remove : ℤ → Db → Db
  pub offline_query : ℤ → Db → List Bytes × Db
  pub friend_insert : ℤ → ℤ → Db → Db
  pub friend_query : ℤ → Db → List User × Db
  pub create_group : Group → Db → Bool × Group × Db
  pub add_group : ℤ → ℤ → Bytes → Db → Db
  pub query_groups : ℤ → Db → List Group × Db
  pub query_gropu_users : ℤ → ℤ → Db → List ℤ × Db
