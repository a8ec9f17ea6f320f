-- ===== src/WebServer/Connections.antt =====
-- The table of connections of WebServer/src/webServer.cpp, and the threads that walk it.
pub mod Sweep
use cpp_tiny_lab.Base.{
  ℕ, zero, suc, ◌+◌, Bool, true, false, ◌||◌, ◌&&◌, Option, none, some, List, [], ◌∷◌, ◌++◌,
  if◌then◌else◌, ◌==◌, ltb,
}
use cpp_tiny_lab.Base.Bytes.{Bytes}

-- `struct fdInfo`. A `last_active_time` of -1, which marks a closed connection, is `none`.
pub record FdInfo : Type 0 where
  pub last_active_time : Option ℕ
  pub address : ℕ

-- `std::unordered_map<int, fdInfo> hash`, in the order in which it is walked.
abbrev pub Hash : Type 0
Hash = List (ℕ × FdInfo)

-- What the server asks of the kernel.
pub data Effect : Type 0 where
  accepted : ℕ → Effect
  send : ℕ → Bytes → Effect
  epoll_del : ℕ → Effect
  close : ℕ → Effect

abbrev pub active_time_interval : ℕ
active_time_interval = 60

-- `hash[cfd].lastActiveTime = t`, which makes an entry where there is none.
unfoldable pub set_time : ℕ → Option ℕ → Hash → Hash
set_time fd t [] = (fd, record { last_active_time = t; address = 0 }) ∷ []
set_time fd t ((k, info) ∷ h) =
    if k == fd then (k, record info { last_active_time = t }) ∷ h else (k, info) ∷ set_time fd t h

-- `hash[cfd].address = client`
unfoldable pub set_address : ℕ → ℕ → Hash → Hash
set_address fd a [] = (fd, record { last_active_time = some 0; address = a }) ∷ []
set_address fd a ((k, info) ∷ h) =
    if k == fd then (k, record info { address = a }) ∷ h else (k, info) ∷ set_address fd a h

-- When a descriptor was last active; `none` where it has no entry or is marked closed.
abbrev pub last_active : ℕ → Hash → Option ℕ
last_active fd [] = none
last_active fd ((k, info) ∷ h) = if k == fd then info.last_active_time else last_active fd h

abbrev pub is_active : ℕ → Hash → Bool
is_active fd h = elim (last_active fd h) [ none ↦ false | some t ↦ true ]

-- `diff > activeTimeInterval`, with the clock read when the entry is reached.
abbrev pub is_idle : ℕ → Option ℕ → Bool
is_idle now none = false
is_idle now (some t) = ltb (t + active_time_interval) now

-- The lines that end a connection.
abbrev pub hang_up : ℕ → List Effect
hang_up fd = epoll_del fd ∷ close fd ∷ []

-- One walk of `checkConnect`; `now fd` is the clock as the walk reaches `fd`.
unfoldable pub check_connect : (ℕ → ℕ) → Hash → Hash × List Effect
check_connect now [] = ([], [])
check_connect now ((fd, info) ∷ h) =
    let (h', es) = check_connect now h in
    if is_idle (now fd) info.last_active_time
    then ((fd, record info { last_active_time = none }) ∷ h', hang_up fd ++ es)
    else ((fd, info) ∷ h', es)

-- One walk of `getConnectCount`.
unfoldable pub get_connect_count : Hash → ℕ
get_connect_count [] = 0
get_connect_count ((fd, info) ∷ h) = elim info.last_active_time [
  | none ↦ get_connect_count h
  | some t ↦ suc (get_connect_count h)
]
