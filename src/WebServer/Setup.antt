-- ===== src/WebServer/Setup.antt =====
-- `main` of WebServer/src/main.cpp up to its loop.
mod Tests
use cpp_tiny_lab.Base.{
  ℕ, ◌+◌, ◌<◌, ◌≤◌, ◌≡◌, refl, Bool, true, false, Option, none, some, List, [], ◌∷◌, ◌++◌, length,
  ltb, if◌then◌else◌, arith, ◌==◌,
}
use cpp_tiny_lab.Base.Bytes.{Bytes, codes}
use cpp_tiny_lab.Base.Int.{ℤ, pos, negsuc}
use cpp_tiny_lab.Base.Numerals.{to_uint16, atoi}

-- What the calls return: the name of the working directory, the descriptors of `socket` and
-- `epoll_create`, none where they fail, whether `bind`, `listen` and `epoll_ctl` work, and what
-- `pthread_create` returns for the two threads.
pub record Calls : Type 0 where
  pub cwd : Bytes
  pub socket : Option ℕ
  pub bind : Bool
  pub listen : Bool
  pub epoll_create : Option ℕ
  pub check_connect : ℤ
  pub get_connect_count : ℤ
  pub epoll_ctl : Bool

-- `main` has returned, with the descriptors that it did not close, or stands before its loop, with its
-- directory, its address, the two descriptors, and whether each of the threads runs.
pub data SetUp : Type 0 where
  returned : List ℕ → SetUp
  ready : Bytes → Bytes → ℕ → ℕ → ℕ → Bool → Bool → SetUp

abbrev is_negative : ℤ → Bool
is_negative (pos n) = false
is_negative (negsuc n) = true

abbrev is_zero : ℤ → Bool
is_zero (pos n) = n == 0
is_zero (negsuc n) = false

-- From `pthread_create` on.
start_threads : Bytes → Bytes → ℕ → ℕ → ℕ → Calls → SetUp
start_threads path ip port sockfd epfd c =
    if is_negative c.check_connect
    then returned (sockfd ∷ epfd ∷ [])
    else if is_negative c.get_connect_count
    then returned (sockfd ∷ epfd ∷ [])
    else if c.epoll_ctl
    then ready path ip port sockfd epfd (is_zero c.check_connect) (is_zero c.get_connect_count)
    else returned (epfd ∷ [])

-- From `bind` on.
start_listening : Bytes → Bytes → ℕ → ℕ → Calls → SetUp
start_listening path ip port sockfd c =
    if c.bind
    then (if c.listen
        then (elim c.epoll_create [
          | none ↦ returned []
          | some epfd ↦ start_threads path ip port sockfd epfd c
        ])
        else returned (sockfd ∷ []))
    else returned []

abbrev webpath : Bytes
webpath = codes "/../webpath"

-- `main` up to its loop; `none` where `strcat` overruns `path[256]`, or `argv` has not both arguments.
pub set_up : List Bytes → Calls → Option SetUp
unfolding start_listening start_threads
set_up (program ∷ ip ∷ port ∷ rest) c =
    if ltb (length c.cwd + length webpath) 256
    then some (elim c.socket [
      | none ↦ returned []
      | some sockfd ↦ start_listening (c.cwd ++ webpath) ip (to_uint16 (atoi port)) sockfd c
    ])
    else none
set_up _ c = none

-- `pthread_create` returns a positive number where it fails: where the other calls work, `main` goes
-- on to its loop whatever that number is, without the thread.
pub set_up-threads :
    (program ip port : Bytes) (rest : List Bytes) (c : Calls) (sockfd epfd m n : ℕ)
    → length c.cwd < 245
    → c.socket ≡ some sockfd
    → c.bind ≡ true
    → c.listen ≡ true
    → c.epoll_create ≡ some epfd
    → c.epoll_ctl ≡ true
    → c.check_connect ≡ pos m
    → c.get_connect_count ≡ pos n
    → set_up (program ∷ ip ∷ port ∷ rest) c
      ≡ some (ready (c.cwd ++ webpath) ip (to_uint16 (atoi port)) sockfd epfd (m == 0) (n == 0))
unfolding set_up
set_up-threads program ip port rest c sockfd epfd m n len so bi li ep ct ck gc =
    rw (so, bi, li, ep, ct, ck, gc) (ground arith)

-- A working directory with a name of 245 bytes or more overruns the array.
pub set_up-overrun : (args : List Bytes) (c : Calls) → 245 ≤ length c.cwd → set_up args c ≡ none
unfolding set_up
set_up-overrun [] c h = refl
set_up-overrun (program ∷ []) c h = refl
set_up-overrun (program ∷ ip ∷ []) c h = refl
set_up-overrun (program ∷ ip ∷ port ∷ rest) c h = ground arith
