-- ===== src/EpollReactor.antt =====
-- EpollReactor/: an echo server whose epoll events point to objects that hold a callback.
pub mod Memory
pub mod Safe
pub mod Batch
pub mod MainLoop
pub mod Setup
pub mod Echo
mod Tests
use cpp_tiny_lab.Base.{
  ◌>>=◌, All, ℕ, ◌≡◌, ◌≤◌, ◌<◌, Bool, true, false, Option, none, some, List, [], ◌∷◌, ◌++◌, map,
  if◌then◌else◌, ◌==◌, ltb, ◌-◌, ◌+◌, ◌||◌, take, suc, zero,
}
use cpp_tiny_lab.Base.Bytes.{Bytes}

-- `function`, by the callback that it points to.
pub data Callback : Type 0 where
  init_accept read_data writr_data : Callback

-- `class myEvent`; `buf` has the `n` bytes that were read, the rest of the array being zeros.
pub record MyEvent : Type 0 where
  pub fd : ℕ
  pub function : Callback
  pub buf : Bytes

-- The events of a registration.
pub data Interest : Type 0 where
  epollin epollout : Interest

-- A registration of a descriptor, with `data.ptr`.
pub record Watch : Type 0 where
  pub fd : ℕ
  pub events : Interest
  pub ptr : ℕ

-- The objects that `new` made and `delete` has not freed, by address, what epoll watches, the
-- descriptors that are open, and what was sent, in order. `fresh` is above each address in use.
pub record Reactor : Type 0 where
  pub heap : List (ℕ × MyEvent)
  pub fresh : ℕ
  pub watched : List Watch
  pub opened : List ℕ
  pub sent : List (ℕ × Bytes)

pub load : ℕ → List (ℕ × MyEvent) → Option MyEvent
load p [] = none
load p ((q, e) ∷ h) = if q == p then some e else load p h

pub store : ℕ → MyEvent → List (ℕ × MyEvent) → List (ℕ × MyEvent)
store p e [] = []
store p e ((q, f) ∷ h) = if q == p then (q, e) ∷ h else (q, f) ∷ store p e h

pub free : ℕ → List (ℕ × MyEvent) → List (ℕ × MyEvent)
free p [] = []
free p ((q, f) ∷ h) = if q == p then h else (q, f) ∷ free p h

pub epoll_del : ℕ → List Watch → List Watch
epoll_del fd [] = []
epoll_del fd (w ∷ ws) = if w.fd == fd then ws else w ∷ epoll_del fd ws

pub epoll_mod : ℕ → Interest → ℕ → List Watch → List Watch
epoll_mod fd events p [] = []
epoll_mod fd events p (w ∷ ws) =
    if w.fd == fd
    then record { fd = fd; events = events; ptr = p } ∷ ws
    else w ∷ epoll_mod fd events p ws

pub close_fd : ℕ → List ℕ → List ℕ
close_fd fd [] = []
close_fd fd (k ∷ ks) = if k == fd then ks else k ∷ close_fd fd ks

-- `epoll_ctl` with EPOLL_CTL_DEL, `close` and `delete`, as after each failure.
pub hang_up : ℕ → ℕ → Reactor → Reactor
hang_up fd p s = record s {
  heap = free p s.heap;
  watched = epoll_del fd s.watched;
  opened = close_fd fd s.opened;
}

abbrev pub upper : ℕ → ℕ
upper c = if ltb 96 c then (if ltb c 123 then c - 32 else c) else c

abbrev pub max_buffer_nums : ℕ
max_buffer_nums = 1024

-- `readData`: `received` is none where `recv` fails, `modified` tells if `epoll_ctl` works.
pub on_read : Option Bytes → Bool → ℕ → ℕ → MyEvent → Reactor → Reactor
on_read none modified fd p e s = hang_up fd p s
on_read (some []) modified fd p e s = hang_up fd p s
on_read (some (c ∷ cs)) modified fd p e s =
    let heap =
      store p (record e { function = writr_data; buf = map upper (take max_buffer_nums (c ∷ cs)) })
        s.heap in
    if modified
    then record s { heap = heap; watched = epoll_mod fd epollout p s.watched }
    else hang_up fd p (record s { heap = heap })

-- `writrData`: `accepted` is how much `send` takes, none where it fails.
pub on_write : Option ℕ → Bool → ℕ → ℕ → MyEvent → Reactor → Reactor
on_write none modified fd p e s = hang_up fd p s
on_write (some zero) modified fd p e s = hang_up fd p s
on_write (some (suc k)) modified fd p e s =
    let sent = s.sent ++ (fd, take (suc k) e.buf) ∷ [] in
    let heap = store p (record e { function = read_data }) s.heap in
    if modified
    then record s { heap = heap; watched = epoll_mod fd epollin p s.watched; sent = sent }
    else hang_up fd p (record s { heap = heap; sent = sent })

-- `initAccept`: `client` is none where `accept` fails, `added` tells if `epoll_ctl` works. On a
-- failure of the latter the listening descriptor is closed, which epoll then watches no more.
pub on_accept : Option ℕ → Bool → ℕ → Reactor → Reactor
on_accept none added fd s = s
on_accept (some cfd) added fd s =
    let s' = record s { opened = cfd ∷ s.opened; fresh = s.fresh + 1 } in
    if added
    then record s' {
      heap = (s.fresh, record { fd = cfd; function = read_data; buf = [] }) ∷ s.heap;
      watched = record { fd = cfd; events = epollin; ptr = s.fresh } ∷ s.watched;
    }
    else record s' { opened = close_fd fd s'.opened; watched = epoll_del fd s'.watched }

-- What the system calls of one callback return.
pub record Answers : Type 0 where
  pub client : Option ℕ
  pub received : Option Bytes
  pub accepted : Option ℕ
  pub ctl : Bool

-- `tempMyevent->function(epfd, tempMyevent->fd, tempMyevent)`
call_event : Answers → ℕ → MyEvent → Reactor → Reactor
call_event a p e s = elim e.function [
  | init_accept ↦ on_accept a.client a.ctl e.fd s
  | read_data ↦ on_read a.received a.ctl e.fd p e s
  | writr_data ↦ on_write a.accepted a.ctl e.fd p e s
]

-- What epoll watches a descriptor for.
pub find_watch : ℕ → List Watch → Option Watch
find_watch fd [] = none
find_watch fd (w ∷ ws) = if w.fd == fd then some w else find_watch fd ws

-- One reported event of the loop of `main`; `none` where its pointer was freed.
pub dispatch : Answers → Watch → Reactor → Option Reactor
unfolding call_event
dispatch a w s = elim (load w.ptr s.heap) [ none ↦ none | some e ↦ some (call_event a w.ptr e s) ]

-- The listening descriptor's object and registration, as `main` sets them up.
pub init : ℕ → Reactor
init sockfd = record {
  heap = (0, record { fd = sockfd; function = init_accept; buf = [] }) ∷ [];
  fresh = 1;
  watched = record { fd = sockfd; events = epollin; ptr = 0 } ∷ [];
  opened = sockfd ∷ [];
  sent = [];
}

-- A reported event: what the system calls of its callback return, the descriptor, and what epoll
-- watched it for when `epoll_wait` returned.
abbrev pub Report : Type 0
Report = Answers × ℕ × Watch

-- The loop over the events that one call of `epoll_wait` reports.
pub run_batch : List Report → Reactor → Option Reactor
run_batch [] s = some s
run_batch ((a, fd, w) ∷ reports) s = dispatch a w s >>= run_batch reports

-- `accept` does not return the descriptor.
abbrev pub IsOther : Option ℕ → ℕ → Type 0
IsOther none fd = Unit
IsOther (some cfd) fd = (cfd == fd) ≡ false

-- `epoll_wait` reports descriptors that are watched, each of them once; `accept` returns descriptors
-- that are not in use.
abbrev pub IsBatch : Reactor → List Report → Type 0
IsBatch s [] = Unit
IsBatch s ((a, fd, w) ∷ reports) =
    (find_watch fd s.watched ≡ some w)
    × All (λ (r : Report). ((fd == r.1) ≡ false) × IsOther a.client r.1) reports
    × IsBatch s reports

pub data Step (s : Reactor) : Reactor → Type 0 where
  batch :
      (reports : List Report) {t : Reactor}
      → IsBatch s reports
      → run_batch reports s ≡ some t
      → Step s t

pub data Reach (sockfd : ℕ) : Reactor → Type 0 where
  start : Reach sockfd (init sockfd)
  later : {s t : Reactor} → Reach sockfd s → Step s t → Reach sockfd t
