-- ===== src/ChatServer/Service/Connections.antt =====
-- The table `_userConnMap` of ChatServer/src/server/chatservice.cpp.
use cpp_tiny_lab.Base.{
  ℕ, ◌+◌, ◌-◌, ◌≡◌, refl, Bool, true, false, ◌||◌, none, some, [], ◌∷◌, if◌then◌else◌, ◌==◌, arith,
  subst, sym, ◌<◌,
}
use cpp_tiny_lab.Base.Int.{ℤ, eq_ℤ, eq_ℤ_iff}
use cpp_tiny_lab.ChatServer.Service.{Conn, ConnMap, find, insert, erase, remove_conn}

abbrev pub has_key : ℤ → ConnMap → Bool
has_key id [] = false
has_key id ((k, c) ∷ m) = eq_ℤ k id || has_key id m

-- The keys of the table are distinct.
abbrev pub IsConnMap : ConnMap → Type 0
IsConnMap [] = Unit
IsConnMap ((k, c) ∷ m) = (has_key k m ≡ false) × IsConnMap m

-- How many users have the connection.
abbrev pub users_of : Conn → ConnMap → ℕ
users_of conn [] = 0
users_of conn ((k, c) ∷ m) = (if c == conn then 1 else 0) + users_of conn m

find-absent : (id : ℤ) (m : ConnMap) → has_key id m ≡ false → find id m ≡ none
unfolding find
find-absent id [] e = refl
find-absent id ((k, c) ∷ m) e = ground (arith, find-absent id m)

absent-find : (id : ℤ) (m : ConnMap) → find id m ≡ none → has_key id m ≡ false
unfolding find
absent-find id [] e = refl
absent-find id ((k, c) ∷ m) e = ground (arith, absent-find id m)

pub insert-none :
    (id : ℤ) (conn : Conn) (m : ConnMap) → find id m ≡ none → insert id conn m ≡ (id, conn) ∷ m
unfolding insert
insert-none id conn m e = rw (e, insert) refl

pub insert-some :
    (id : ℤ) (conn old : Conn) (m : ConnMap) → find id m ≡ some old → insert id conn m ≡ m
unfolding insert
insert-some id conn old m e = rw (e, insert) refl

pub insert-IsConnMap :
    (id : ℤ) (conn : Conn) (m : ConnMap) → IsConnMap m → IsConnMap (insert id conn m)
unfolding insert
insert-IsConnMap id conn m h = ground (arith, absent-find id m)

-- An insertion changes nothing for other users.
pub find-insert-other :
    (id j : ℤ) (conn : Conn) (m : ConnMap)
    → eq_ℤ id j ≡ false
    → find j (insert id conn m) ≡ find j m
unfolding find insert
find-insert-other id j conn m ne = ground arith

has_key-erase : (id j : ℤ) (m : ConnMap) → has_key j m ≡ false → has_key j (erase id m) ≡ false
unfolding erase
has_key-erase id j [] e = refl
has_key-erase id j ((k, c) ∷ m) e = ground (arith, has_key-erase id j m)

pub erase-IsConnMap : (id : ℤ) (m : ConnMap) → IsConnMap m → IsConnMap (erase id m)
unfolding erase
erase-IsConnMap id [] h = tt
erase-IsConnMap id ((k, c) ∷ m) h = ground (arith, has_key-erase id k m, erase-IsConnMap id m)

has_key-remove_conn :
    (conn : Conn) (j : ℤ) (m : ConnMap)
    → has_key j m ≡ false
    → has_key j (remove_conn conn m).1 ≡ false
unfolding remove_conn
has_key-remove_conn conn j [] e = refl
has_key-remove_conn conn j ((k, c) ∷ m) e = ground (arith, has_key-remove_conn conn j m)

pub remove_conn-IsConnMap :
    (conn : Conn) (m : ConnMap) → IsConnMap m → IsConnMap (remove_conn conn m).1
unfolding remove_conn
remove_conn-IsConnMap conn [] h = tt
remove_conn-IsConnMap conn ((k, c) ∷ m) h =
    ground (arith, has_key-remove_conn conn k m, remove_conn-IsConnMap conn m)

has_key-transfer :
    (k id : ℤ) (m : ConnMap) → eq_ℤ k id ≡ true → has_key k m ≡ false → has_key id m ≡ false
has_key-transfer k id m e h = subst (λ i. has_key i m ≡ false) ((eq_ℤ_iff k id).0 e) h

pub find-erase : (id : ℤ) (m : ConnMap) → IsConnMap m → find id (erase id m) ≡ none
unfolding find erase
find-erase id [] h = refl
find-erase id ((k, c) ∷ m) h =
    ground (arith, find-erase id m, has_key-transfer k id m, find-absent id m)

eq_ℤ-other : (k id j : ℤ) → eq_ℤ id j ≡ false → eq_ℤ k id ≡ true → eq_ℤ k j ≡ false
eq_ℤ-other k id j ne e = subst (λ i. eq_ℤ i j ≡ false) (sym ((eq_ℤ_iff k id).0 e)) ne

pub find-erase-other : (id j : ℤ) (m : ConnMap) → eq_ℤ id j ≡ false → find j (erase id m) ≡ find j m
unfolding find erase
find-erase-other id j [] ne = refl
find-erase-other id j ((k, c) ∷ m) ne =
    ground (arith, find-erase-other id j m, eq_ℤ-other k id j ne)

-- One entry at most is removed, and it is one of the connection.
pub users_of-remove_conn :
    (conn : Conn) (m : ConnMap) → users_of conn (remove_conn conn m).1 ≡ users_of conn m - 1
unfolding remove_conn
users_of-remove_conn conn [] = omega arith
users_of-remove_conn conn ((k, c) ∷ m) = ground (arith, users_of-remove_conn conn m)

pub users_of-remove_conn-other :
    (conn other : Conn) (m : ConnMap)
    → (conn == other) ≡ false
    → users_of other (remove_conn conn m).1 ≡ users_of other m
unfolding remove_conn
users_of-remove_conn-other conn other [] ne = refl
users_of-remove_conn-other conn other ((k, c) ∷ m) ne =
    ground (arith, users_of-remove_conn-other conn other m ne)

-- A connection that a lookup finds is in the table.
pub users_of-find :
    (id : ℤ) (m : ConnMap) (conn : Conn) → find id m ≡ some conn → 0 < users_of conn m
unfolding find
users_of-find id [] conn e = cc
users_of-find id ((k, c) ∷ m) conn e = ground (arith, users_of-find id m conn)

pub find-head : (id : ℤ) (conn : Conn) (m : ConnMap) → find id ((id, conn) ∷ m) ≡ some conn
unfolding find
find-head id conn m = rw ((eq_ℤ_iff id id).1 refl, find) refl
