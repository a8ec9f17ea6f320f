-- ===== src/EpollReactor/Memory.antt =====
-- The pointers that epoll holds in EpollReactor/src/myEvents.cpp.
use cpp_tiny_lab.Base.{
  ℕ, ◌≡◌, ◌<◌, ◌+◌, refl, Bool, true, false, Option, none, some, List, [], ◌∷◌, ◌||◌, if◌then◌else◌,
  ◌==◌, arith,
}
use cpp_tiny_lab.EpollReactor.{
  MyEvent, Interest, Watch, Reactor, load, store, free, epoll_del, epoll_mod, find_watch,
}

-- The descriptor of the object at an address.
abbrev pub owner : ℕ → List (ℕ × MyEvent) → Option ℕ
owner p [] = none
owner p ((q, e) ∷ h) = if q == p then some e.fd else owner p h

abbrev pub has_ptr : ℕ → List Watch → Bool
has_ptr p [] = false
has_ptr p (w ∷ ws) = w.ptr == p || has_ptr p ws

-- Each pointer is to an object that holds the watched descriptor, and no two are to the same.
abbrev pub IsOwned : List (ℕ × MyEvent) → List Watch → Type 0
IsOwned h [] = Unit
IsOwned h (w ∷ ws) = (owner w.ptr h ≡ some w.fd) × (has_ptr w.ptr ws ≡ false) × IsOwned h ws

-- All addresses in use are below `n`.
abbrev pub IsBelow : ℕ → List (ℕ × MyEvent) → Type 0
IsBelow n [] = Unit
IsBelow n ((q, e) ∷ h) = (q < n) × IsBelow n h

abbrev pub IsSafe : Reactor → Type 0
IsSafe s = IsOwned s.heap s.watched × IsBelow s.fresh s.heap

pub owner-free :
    (p q : ℕ) (h : List (ℕ × MyEvent)) → (p == q) ≡ false → owner q (free p h) ≡ owner q h
unfolding free
owner-free p q [] ne = refl
owner-free p q ((k, e) ∷ h) ne = ground (arith, owner-free p q h)

pub owner-store :
    (p q : ℕ) (e : MyEvent) (h : List (ℕ × MyEvent))
    → owner p h ≡ some e.fd
    → owner q (store p e h) ≡ owner q h
unfolding store
owner-store p q e [] o = refl
owner-store p q e ((k, f) ∷ h) o = ground (arith, owner-store p q e h)

pub load-owner :
    (p : ℕ) (h : List (ℕ × MyEvent)) (e : MyEvent) → load p h ≡ some e → owner p h ≡ some e.fd
unfolding load
load-owner p [] e l = cc
load-owner p ((k, f) ∷ h) e l = ground (arith, load-owner p h e)

pub owner-load : (p : ℕ) (h : List (ℕ × MyEvent)) → load p h ≡ none → owner p h ≡ none
unfolding load
owner-load p [] l = refl
owner-load p ((k, f) ∷ h) l = ground (arith, owner-load p h)

pub owner-below : (n p fd : ℕ) (h : List (ℕ × MyEvent)) → IsBelow n h → owner p h ≡ some fd → p < n
owner-below n p fd [] b o = cc
owner-below n p fd ((k, e) ∷ h) b o = ground (arith, owner-below n p fd h b.1)

pub free-IsBelow : (n p : ℕ) (h : List (ℕ × MyEvent)) → IsBelow n h → IsBelow n (free p h)
unfolding free
free-IsBelow n p [] b = tt
free-IsBelow n p ((k, e) ∷ h) b = ground (arith, free-IsBelow n p h)

pub store-IsBelow :
    (n p : ℕ) (e : MyEvent) (h : List (ℕ × MyEvent)) → IsBelow n h → IsBelow n (store p e h)
unfolding store
store-IsBelow n p e [] b = tt
store-IsBelow n p e ((k, f) ∷ h) b = ground (arith, store-IsBelow n p e h)

pub IsBelow-suc : (n : ℕ) (h : List (ℕ × MyEvent)) → IsBelow n h → IsBelow (n + 1) h
IsBelow-suc n [] b = tt
IsBelow-suc n ((k, e) ∷ h) b = (omega (arith, b.0), IsBelow-suc n h b.1)

pub free-IsOwned :
    (p : ℕ) (h : List (ℕ × MyEvent)) (ws : List Watch)
    → has_ptr p ws ≡ false
    → IsOwned h ws
    → IsOwned (free p h) ws
free-IsOwned p h [] a o = tt
free-IsOwned p h (w ∷ ws) a o = ground (arith, free-IsOwned p h ws, owner-free p w.ptr h)

pub store-IsOwned :
    (p : ℕ) (e : MyEvent) (h : List (ℕ × MyEvent)) (ws : List Watch)
    → owner p h ≡ some e.fd
    → IsOwned h ws
    → IsOwned (store p e h) ws
store-IsOwned p e h [] a o = tt
store-IsOwned p e h (w ∷ ws) a o = ground (arith, store-IsOwned p e h ws, owner-store p w.ptr e h)

pub new-IsOwned :
    (n : ℕ) (e : MyEvent) (h : List (ℕ × MyEvent)) (ws : List Watch)
    → IsBelow n h
    → IsOwned h ws
    → IsOwned ((n, e) ∷ h) ws × (has_ptr n ws ≡ false)
new-IsOwned n e h [] b o = (tt, refl)
new-IsOwned n e h (w ∷ ws) b o = ground (arith, new-IsOwned n e h ws, owner-below n w.ptr w.fd h b)

pub has_ptr-epoll_del :
    (fd p : ℕ) (ws : List Watch) → has_ptr p ws ≡ false → has_ptr p (epoll_del fd ws) ≡ false
unfolding epoll_del
has_ptr-epoll_del fd p [] e = refl
has_ptr-epoll_del fd p (w ∷ ws) e = ground (arith, has_ptr-epoll_del fd p ws)

pub epoll_del-IsOwned :
    (fd : ℕ) (h : List (ℕ × MyEvent)) (ws : List Watch) → IsOwned h ws → IsOwned h (epoll_del fd ws)
unfolding epoll_del
epoll_del-IsOwned fd h [] o = tt
epoll_del-IsOwned fd h (w ∷ ws) o =
    ground (arith, epoll_del-IsOwned fd h ws, has_ptr-epoll_del fd w.ptr ws)

pub find_watch-owner :
    (fd : ℕ) (w : Watch) (h : List (ℕ × MyEvent)) (ws : List Watch)
    → IsOwned h ws
    → find_watch fd ws ≡ some w
    → owner w.ptr h ≡ some fd
unfolding find_watch
find_watch-owner fd w h [] o e = cc
find_watch-owner fd w h (v ∷ ws) o e = ground (arith, find_watch-owner fd w h ws)

pub find_watch-has_ptr :
    (fd : ℕ) (w : Watch) (ws : List Watch) → find_watch fd ws ≡ some w → has_ptr w.ptr ws ≡ true
unfolding find_watch
find_watch-has_ptr fd w [] e = cc
find_watch-has_ptr fd w (v ∷ ws) e = ground (arith, find_watch-has_ptr fd w ws)

-- No other descriptor has the pointer.
pub del-has_ptr :
    (fd : ℕ) (w : Watch) (h : List (ℕ × MyEvent)) (ws : List Watch)
    → IsOwned h ws
    → find_watch fd ws ≡ some w
    → has_ptr w.ptr (epoll_del fd ws) ≡ false
unfolding find_watch epoll_del
del-has_ptr fd w h [] o e = cc
del-has_ptr fd w h (v ∷ ws) o e = ground (arith, del-has_ptr fd w h ws, find_watch-has_ptr fd w ws)

pub has_ptr-epoll_mod :
    (fd p : ℕ) (i : Interest) (w : Watch) (ws : List Watch)
    → find_watch fd ws ≡ some w
    → has_ptr p (epoll_mod fd i w.ptr ws) ≡ has_ptr p ws
unfolding find_watch epoll_mod
has_ptr-epoll_mod fd p i w [] e = cc
has_ptr-epoll_mod fd p i w (v ∷ ws) e = ground (arith, has_ptr-epoll_mod fd p i w ws)

pub epoll_mod-IsOwned :
    (fd : ℕ) (i : Interest) (w : Watch) (h : List (ℕ × MyEvent)) (ws : List Watch)
    → IsOwned h ws
    → find_watch fd ws ≡ some w
    → IsOwned h (epoll_mod fd i w.ptr ws)
unfolding find_watch epoll_mod
epoll_mod-IsOwned fd i w h [] o e = cc
epoll_mod-IsOwned fd i w h (v ∷ ws) o e =
    ground (arith, epoll_mod-IsOwned fd i w h ws, has_ptr-epoll_mod fd v.ptr i w ws)
