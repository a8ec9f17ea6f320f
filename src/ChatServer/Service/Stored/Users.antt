-- ===== src/ChatServer/Service/Stored/Users.antt =====
-- Lemmas on the table of users, ChatServer/chat_db.sql.
use cpp_tiny_lab.Base.{◌≡◌, refl, ap, ◌⊎◌, inl, inr, none, some, List, [], ◌∷◌, ◌++◌, map, arith}
use cpp_tiny_lab.Base.Bytes.{Bytes, codes, bytes_eq}
use cpp_tiny_lab.Base.Int.{ℤ, eq_ℤ_iff}
use cpp_tiny_lab.ChatServer.{User}
use cpp_tiny_lab.ChatServer.Models.Tables.{find_user, with_state, set_state, set_offline}

pub find_user-append :
    (id : ℤ) (us : List User) (u : User)
    → u.id ≡ id
    → find_user id us ≡ none
    → find_user id (us ++ u ∷ []) ≡ some u
unfolding find_user
find_user-append id [] u e h = rw ((eq_ℤ_iff u.id id).1 e) refl
find_user-append id (v ∷ us) u e h = ground (arith, find_user-append id us u e)

pub find_user-map :
    (f : User → User)
    → ((u : User) → (f u).id ≡ u.id)
    → (id : ℤ) (us : List User) (u : User) → find_user id us ≡ some u
    → find_user id (map f us) ≡ some (f u)
unfolding find_user
find_user-map f same id [] u e = cc
find_user-map f same id (v ∷ us) u e = ground (arith, same v, find_user-map f same id us u)

pub set_state-id : (id : ℤ) (state : Bytes) (u : User) → (set_state id state u).id ≡ u.id
set_state-id id state u = ground arith

pub set_offline-id : (u : User) → (set_offline u).id ≡ u.id
set_offline-id u = ground arith

-- The column is an enumeration of the two states.
pub set_offline-enum :
    (u : User)
    → (u.state ≡ codes "online") ⊎ (u.state ≡ codes "offline")
    → set_offline u ≡ with_state (codes "offline") u
unfolding bytes_eq
set_offline-enum u (inl e) = rw e refl
set_offline-enum u (inr e) = ground (arith, ap (λ (state : Bytes). with_state state u) e)

pub set_state_self :
    (id : ℤ) (u : User) (state : Bytes) → u.id ≡ id → set_state id state u ≡ with_state state u
set_state_self id u state e = rw ((eq_ℤ_iff u.id id).1 e) refl
