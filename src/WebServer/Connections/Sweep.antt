-- ===== src/WebServer/Connections/Sweep.antt =====
-- What a walk of `checkConnect` closes, WebServer/src/webServer.cpp.
use cpp_tiny_lab.Base.{
  ℕ, suc, ◌+◌, ◌-◌, ltb, ◌≡◌, refl, Bool, true, false, ◌||◌, Option, none, some, List, [], ◌∷◌,
  if◌then◌else◌, ◌==◌, arith,
}
use cpp_tiny_lab.WebServer.Connections.{
  Hash, Effect, close, set_time, set_address, last_active, check_connect, get_connect_count,
}

-- How often a descriptor is closed.
abbrev pub is_close : ℕ → Effect → ℕ
is_close fd (close k) = if k == fd then 1 else 0
is_close fd _ = 0

abbrev pub closes : ℕ → List Effect → ℕ
closes fd [] = 0
closes fd (e ∷ es) = is_close fd e + closes fd es

abbrev pub has_key : ℕ → Hash → Bool
has_key fd [] = false
has_key fd ((k, info) ∷ h) = k == fd || has_key fd h

-- The keys of an `unordered_map` are distinct.
abbrev pub IsMap : Hash → Type 0
IsMap [] = Unit
IsMap ((k, info) ∷ h) = (has_key k h ≡ false) × IsMap h

last_active-absent : (fd : ℕ) (h : Hash) → has_key fd h ≡ false → last_active fd h ≡ none
last_active-absent fd [] e = refl
last_active-absent fd ((k, info) ∷ h) e = ground (arith, last_active-absent fd h)

pub has_key-set_time :
    (fd j : ℕ) (t : Option ℕ) (h : Hash) → has_key j (set_time fd t h) ≡ (fd == j || has_key j h)
unfolding set_time
has_key-set_time fd j t [] = ground arith
has_key-set_time fd j t ((k, info) ∷ h) = ground (arith, has_key-set_time fd j t h)

pub set_time-IsMap : (fd : ℕ) (t : Option ℕ) (h : Hash) → IsMap h → IsMap (set_time fd t h)
unfolding set_time
set_time-IsMap fd t [] m = (refl, tt)
set_time-IsMap fd t ((k, info) ∷ h) m =
    ground (arith, set_time-IsMap fd t h m.1, has_key-set_time fd k t h)

pub last_active-set_time :
    (fd j : ℕ) (t : Option ℕ) (h : Hash)
    → last_active j (set_time fd t h) ≡ (if fd == j then t else last_active j h)
unfolding set_time
last_active-set_time fd j t [] = ground arith
last_active-set_time fd j t ((k, info) ∷ h) = ground (arith, last_active-set_time fd j t h)

has_key-check_connect :
    (now : ℕ → ℕ) (fd : ℕ) (h : Hash) → has_key fd (check_connect now h).0 ≡ has_key fd h
unfolding check_connect
has_key-check_connect now fd [] = refl
has_key-check_connect now fd ((k, info) ∷ h) = ground (arith, has_key-check_connect now fd h)

pub check_connect-IsMap : (now : ℕ → ℕ) (h : Hash) → IsMap h → IsMap (check_connect now h).0
unfolding check_connect
check_connect-IsMap now [] m = tt
check_connect-IsMap now ((k, info) ∷ h) m =
    ground (arith, check_connect-IsMap now h m.1, has_key-check_connect now k h)

closes-absent :
    (now : ℕ → ℕ) (fd : ℕ) (h : Hash) → has_key fd h ≡ false → closes fd (check_connect now h).1 ≡ 0
unfolding check_connect
closes-absent now fd [] e = refl
closes-absent now fd ((k, info) ∷ h) e = ground (arith, closes-absent now fd h)

-- More than a minute lies between the two, and the connection is active.
abbrev pub expired : ℕ → Option ℕ → Bool
expired now none = false
expired now (some t) = ltb 60 (now - t)

-- A walk of `checkConnect` closes a connection, once, exactly if it is active and was last active
-- more than a minute before the clock's reading, and then marks it closed; the time of every other
-- descriptor stays as it was.
pub check_connect-idle :
    (now : ℕ → ℕ) (fd : ℕ) (h : Hash)
    → IsMap h
    → let idle = expired (now fd) (last_active fd h) in
      (closes fd (check_connect now h).1 ≡ (if idle then 1 else 0))
      × (last_active fd (check_connect now h).0 ≡ (if idle then none else last_active fd h))
unfolding check_connect
check_connect-idle now fd [] m = (refl, refl)
check_connect-idle now fd ((k, info) ∷ h) m = ground (
  arith,
  check_connect-idle now fd h m.1,
  closes-absent now k h m.0,
  has_key-check_connect now k h,
  last_active-absent k (check_connect now h).0,
  last_active-absent k h,
)

-- The number that `getConnectCount` prints falls by one with each connection that a walk closes.
abbrev closings : List Effect → ℕ
closings [] = 0
closings (close k ∷ es) = suc (closings es)
closings (e ∷ es) = closings es

pub get_connect_count-check_connect :
    (now : ℕ → ℕ) (h : Hash)
    → get_connect_count (check_connect now h).0 + closings (check_connect now h).1
      ≡ get_connect_count h
unfolding check_connect get_connect_count
get_connect_count-check_connect now [] = refl
get_connect_count-check_connect now ((k, info) ∷ h) =
    ground (arith, get_connect_count-check_connect now h)

pub has_key-set_time_self : (fd : ℕ) (t : Option ℕ) (h : Hash) → has_key fd (set_time fd t h) ≡ true
has_key-set_time_self fd t h = ground (arith, has_key-set_time fd fd t h)

has_key-set_address :
    (fd j a : ℕ) (h : Hash) → has_key j (set_address fd a h) ≡ (fd == j || has_key j h)
unfolding set_address
has_key-set_address fd j a [] = ground arith
has_key-set_address fd j a ((k, info) ∷ h) = ground (arith, has_key-set_address fd j a h)

pub set_address-IsMap : (fd a : ℕ) (h : Hash) → IsMap h → IsMap (set_address fd a h)
unfolding set_address
set_address-IsMap fd a [] m = (refl, tt)
set_address-IsMap fd a ((k, info) ∷ h) m =
    ground (arith, set_address-IsMap fd a h m.1, has_key-set_address fd k a h)

-- An address is set behind the time, so the entry is there.
pub last_active-set_address :
    (fd j a : ℕ) (h : Hash)
    → has_key fd h ≡ true
    → last_active j (set_address fd a h) ≡ last_active j h
unfolding set_address
last_active-set_address fd j a [] e = cc
last_active-set_address fd j a ((k, info) ∷ h) e = ground (arith, last_active-set_address fd j a h)
