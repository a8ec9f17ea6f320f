-- ===== src/EpollReactor/Setup.antt =====
-- `main` of EpollReactor/src/main.cpp, its set-up and then its loop.
use cpp_tiny_lab.Base.{
  ℕ, ◌≡◌, refl, Bool, true, false, Option, none, some, List, [], ◌∷◌, if◌then◌else◌,
}
use cpp_tiny_lab.Base.Bytes.{Bytes}
use cpp_tiny_lab.Base.Numerals.{to_uint16, atoi}
use cpp_tiny_lab.EpollReactor.{Reactor, init}
use cpp_tiny_lab.EpollReactor.MainLoop.{Wait, main_loop, AreWaits, main_loop-ne-none}

-- What the calls return: the descriptors of `socket` and `epoll_create`, none where they fail, and
-- whether `bind`, `listen` and `epoll_ctl` work.
pub record Calls : Type 0 where
  pub socket : Option ℕ
  pub bind : Bool
  pub listen : Bool
  pub epoll_create : Option ℕ
  pub epoll_ctl : Bool

-- `main` has returned before its loop, with the descriptors that it left open, or stands before it,
-- with its address and the listening descriptor.
pub data SetUp : Type 0 where
  returned : List ℕ → SetUp
  ready : Bytes → ℕ → ℕ → SetUp

-- From `epoll_create` on, whose result is not tested: `epoll_ctl` fails on -1.
start_epoll : Bytes → ℕ → ℕ → Calls → SetUp
start_epoll ip port sockfd c = elim c.epoll_create [
  | none ↦ returned (sockfd ∷ [])
  | some epfd ↦ if c.epoll_ctl then ready ip port sockfd else returned (sockfd ∷ epfd ∷ [])
]

-- From `bind` on.
start_listening : Bytes → ℕ → ℕ → Calls → SetUp
start_listening ip port sockfd c =
    if c.bind
    then (if c.listen then start_epoll ip port sockfd c else returned (sockfd ∷ []))
    else returned (sockfd ∷ [])

-- `main` up to its loop; `none` where `argv` has not both arguments.
pub set_up : List Bytes → Calls → Option SetUp
unfolding start_listening start_epoll
set_up (program ∷ ip ∷ port ∷ rest) c = some (elim c.socket [
  | none ↦ returned []
  | some sockfd ↦ start_listening ip (to_uint16 (atoi port)) sockfd c
])
set_up _ c = none

-- How `main` stands behind what `epoll_wait` returned.
pub data Standing : Type 0 where
  unstarted : List ℕ → Standing
  behind : Reactor → Standing

abbrev stands : Option Reactor → Option Standing
stands none = none
stands (some s) = some (behind s)

stands-none : (o : Option Reactor) → stands o ≡ none → o ≡ none
stands-none none e = refl
stands-none (some s) e = cc

loop_from : List Wait → Option SetUp → Option Standing
loop_from waits none = none
loop_from waits (some (returned fds)) = some (unstarted fds)
loop_from waits (some (ready ip port sockfd)) = stands (main_loop sockfd waits (init sockfd))

pub main : List Bytes → Calls → List Wait → Option Standing
unfolding loop_from
main args c waits = loop_from waits (set_up args c)

-- A set-up that gets through has the descriptor of `socket`.
abbrev IsMade : Calls → SetUp → Type 0
IsMade c (returned fds) = Unit
IsMade c (ready ip port sockfd) = c.socket ≡ some sockfd

start_epoll-IsMade :
    (ip : Bytes) (port sockfd : ℕ) (c : Calls) (o : Option ℕ) (works : Bool)
    → c.epoll_create ≡ o
    → c.epoll_ctl ≡ works
    → c.socket ≡ some sockfd
    → IsMade c (start_epoll ip port sockfd c)
unfolding start_epoll
start_epoll-IsMade ip port sockfd c none works e w h = rw (e, start_epoll) tt
start_epoll-IsMade ip port sockfd c (some epfd) true e w h = rw (e, start_epoll) (rw w h)
start_epoll-IsMade ip port sockfd c (some epfd) false e w h = rw (e, start_epoll) (rw w tt)

start_listening-IsMade :
    (ip : Bytes) (port sockfd : ℕ) (c : Calls) (bound listens : Bool)
    → c.bind ≡ bound
    → c.listen ≡ listens
    → c.socket ≡ some sockfd
    → IsMade c (start_listening ip port sockfd c)
unfolding start_listening start_epoll
start_listening-IsMade ip port sockfd c false listens b l h = rw b tt
start_listening-IsMade ip port sockfd c true false b l h = rw (b, l) tt
start_listening-IsMade ip port sockfd c true true b l h =
    rw (b, l) (start_epoll-IsMade ip port sockfd c c.epoll_create c.epoll_ctl refl refl h)

-- The loop behind a set-up.
loop_from-ne-none :
    (waits : List Wait) (c : Calls) (e : SetUp)
    → IsMade c e
    → ((sockfd : ℕ) → c.socket ≡ some sockfd → AreWaits waits (init sockfd))
    → ¬ (loop_from waits (some e) ≡ none)
unfolding loop_from
loop_from-ne-none waits c (returned fds) m h e = cc
loop_from-ne-none waits c (ready ip port sockfd) m h e =
    main_loop-ne-none sockfd waits (h sockfd m)
      (stands-none (main_loop sockfd waits (init sockfd)) e)

main-cases :
    (program ip port : Bytes) (rest : List Bytes) (c : Calls) (waits : List Wait) (o : Option ℕ)
    → c.socket ≡ o
    → ((sockfd : ℕ) → c.socket ≡ some sockfd → AreWaits waits (init sockfd))
    → ¬ (main (program ∷ ip ∷ port ∷ rest) c waits ≡ none)
unfolding main set_up
main-cases program ip port rest c waits none s h e =
    loop_from-ne-none waits c (returned []) tt h (rw (s, set_up) at e)
main-cases program ip port rest c waits (some sockfd) s h e =
    loop_from-ne-none waits c (start_listening ip (to_uint16 (atoi port)) sockfd c)
      (start_listening-IsMade ip (to_uint16 (atoi port)) sockfd c c.bind c.listen refl refl s) h
      (rw (s, set_up) at e)

-- With both arguments, whatever the calls of the set-up return, and whatever each call of
-- `epoll_wait` returns then, an error included, `main` uses and deletes no object that was freed
-- before: it ends before its loop, or gets through all that was reported, and at the end of its loop
-- the object of the listening descriptor is still there to be deleted.
pub main-ne-none :
    (program ip port : Bytes) (rest : List Bytes) (c : Calls) (waits : List Wait)
    → ((sockfd : ℕ) → c.socket ≡ some sockfd → AreWaits waits (init sockfd))
    → ¬ (main (program ∷ ip ∷ port ∷ rest) c waits ≡ none)
main-ne-none program ip port rest c waits h =
    main-cases program ip port rest c waits c.socket refl h
