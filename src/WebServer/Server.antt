-- ===== src/WebServer/Server.antt =====
-- The loop of WebServer/src/main.cpp and the two threads beside it, interleaved: the loop over the
-- events that `epoll_wait` reported runs under the mutex, and so does each walk of the table.
pub mod Opened
pub mod Consistent
pub mod Counted
mod Tests
use mathlib.Core.Option
use cpp_tiny_lab.Base.{
  ℕ, ◌≡◌, Bool, true, false, Option, none, some, List, [], ◌∷◌, ◌++◌, if◌then◌else◌, ◌==◌, not,
  ◌&&◌, suc, ◌>>=◌, ◌⊎◌, All,
}
use cpp_tiny_lab.WebServer.Connections.{
  Hash, Effect, accepted, close, set_time, set_address, check_connect, is_active,
}
use cpp_tiny_lab.WebServer.Handler.{Files, Received, failed, http_request}

-- The table, and the calls made so far.
pub record Server : Type 0 where
  pub hash : Hash
  pub trace : List Effect

abbrev pub init : Server
init = record { hash = []; trace = [] }

-- Whether the last call on a descriptor opened it.
abbrev pub opened_after : ℕ → Bool → List Effect → Bool
opened_after fd b [] = b
opened_after fd b (accepted k ∷ es) = opened_after fd (if k == fd then true else b) es
opened_after fd b (close k ∷ es) = opened_after fd (if k == fd then false else b) es
opened_after fd b (e ∷ es) = opened_after fd b es

abbrev pub is_open : ℕ → Server → Bool
is_open fd s = opened_after fd false s.trace

-- A connection is accepted and joins the epoll set.
pub accept_client : ℕ → ℕ → ℕ → Server → Server
accept_client cfd now client s = record {
  hash = set_address cfd client (set_time cfd (some now) s.hash);
  trace = s.trace ++ accepted cfd ∷ [];
}

-- An event on a connection: its time is set, then the request is handled.
pub handle_event : Files → ℕ → ℕ → Received → Server → Option Server
handle_event files cfd now r s =
    Option.map (λ (p : Hash × List Effect). record { hash = p.0; trace = s.trace ++ p.1 })
      (http_request files cfd (set_time cfd (some now) s.hash) r)

-- A walk of `checkConnect`.
pub sweep : (ℕ → ℕ) → Server → Server
sweep now s = let (h, es) = check_connect now s.hash in record { hash = h; trace = s.trace ++ es }

-- Where `main` goes on: with the next event, or not at all since it returned.
pub data Outcome : Type 0 where
  running : Server → Outcome
  returned : Server → Outcome

-- What the calls for one event return: the descriptor of `accept`, none where it fails, the address,
-- whether `epoll_ctl` works, the clock, and what `recv` gives.
pub record Answers : Type 0 where
  pub client : Option ℕ
  pub address : ℕ
  pub ctl : Bool
  pub now : ℕ
  pub received : Received

-- The branch of the listening descriptor. `accept` is not tested: `epoll_ctl` fails on -1, as does
-- `close`, and `main` returns.
on_listen : Answers → Option ℕ → Server → Outcome
on_listen a none s = returned s
on_listen a (some cfd) s =
    if a.ctl
    then running (accept_client cfd a.now a.address s)
    else returned (record s { trace = s.trace ++ accepted cfd ∷ close cfd ∷ [] })

-- One event of the loop over those that `epoll_wait` reported.
pub on_event : ℕ → Files → Answers → ℕ → Server → Option Outcome
unfolding on_listen
on_event sockfd files a fd s =
    if fd == sockfd
    then some (on_listen a a.client s)
    else Option.map running (handle_event files fd a.now a.received s)

-- The loop from the `i`th event on.
pub on_events : ℕ → Files → (ℕ → Answers) → ℕ → List ℕ → Server → Option Outcome
on_events sockfd files answers i [] s = some (running s)
on_events sockfd files answers i (fd ∷ fds) s = on_event sockfd files (answers i) fd s >>= λ o.
    elim o [
      | running t ↦ on_events sockfd files answers (suc i) fds t
      | returned t ↦ some (returned t)
    ]

-- `accept` returns a descriptor that is not open; `recv` fails on one that is not open.
abbrev pub IsFresh : Option ℕ → Server → Type 0
IsFresh none s = Unit
IsFresh (some cfd) s = is_open cfd s ≡ false

abbrev pub IsAnswered : Answers → ℕ → Server → Type 0
IsAnswered a fd s = IsFresh a.client s × (is_open fd s ≡ false → a.received ≡ failed)

-- The answers to a batch, each at the state that its event meets.
abbrev pub AreAnswered : ℕ → Files → (ℕ → Answers) → ℕ → List ℕ → Server → Type 0
AreAnswered sockfd files answers i [] s = Unit
AreAnswered sockfd files answers i (fd ∷ fds) s =
    IsAnswered (answers i) fd s
    × ((t : Server)
        → on_event sockfd files (answers i) fd s ≡ some (running t)
        → AreAnswered sockfd files answers (suc i) fds t)

-- Where the main thread stands: in `epoll_wait`, before the lock with the descriptors that were
-- reported, or behind its `return`.
pub data Phase : Type 0 where
  waiting : Phase
  reported : List ℕ → Phase
  ended : Phase

pub record Loop : Type 0 where
  pub server : Server
  pub phase : Phase

-- After the last event the mutex is unlocked, and `epoll_wait` is called again.
abbrev pub after_events : Outcome → Loop
after_events (running s) = record { server = s; phase = waiting }
after_events (returned s) = record { server = s; phase = ended }

-- What the threads do. `epoll_wait` reports descriptors that are open then; a walk of the other
-- threads may come before the lock. On an error of `epoll_wait` but EINTR the loop ends.
pub data Step (sockfd : ℕ) (files : Files) (l : Loop) : Loop → Type 0 where
  reports :
      (fds : List ℕ)
      → l.phase ≡ waiting
      → All (λ fd. (fd ≡ sockfd) ⊎ (is_open fd l.server ≡ true)) fds
      → Step sockfd files l (record l { phase = reported fds })
  interrupted : l.phase ≡ waiting → Step sockfd files l l
  breaks : l.phase ≡ waiting → Step sockfd files l (record l { phase = ended })
  events :
      (fds : List ℕ) (answers : ℕ → Answers) {o : Outcome}
      → l.phase ≡ reported fds
      → AreAnswered sockfd files answers 0 fds l.server
      → on_events sockfd files answers 0 fds l.server ≡ some o
      → Step sockfd files l (after_events o)
  walk : (now : ℕ → ℕ) → Step sockfd files l (record l { server = sweep now l.server })

pub data Reach (sockfd : ℕ) (files : Files) : Loop → Type 0 where
  start : Reach sockfd files (record { server = init; phase = waiting })
  later : {l m : Loop} → Reach sockfd files l → Step sockfd files l m → Reach sockfd files m
