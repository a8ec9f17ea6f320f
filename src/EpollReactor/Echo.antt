-- ===== src/EpollReactor/Echo.antt =====
-- What a connection is sent back, EpollReactor/src/myEvents.cpp.
use cpp_tiny_lab.Base.{ℕ, ◌≡◌, refl, true, Option, some, suc, List, [], ◌∷◌, ◌++◌, take, map, arith}
use cpp_tiny_lab.Base.Bytes.{Bytes}
use cpp_tiny_lab.EpollReactor.{
  MyEvent, read_data, writr_data, Interest, epollout, Watch, Reactor, Answers, load, store,
  epoll_mod, max_buffer_nums, upper, on_read, on_write, call_event, dispatch, find_watch,
}

load-store :
    (p : ℕ) (e f : MyEvent) (h : List (ℕ × MyEvent))
    → load p h ≡ some f
    → load p (store p e h) ≡ some e
unfolding load store
load-store p e f [] l = cc
load-store p e f ((k, g) ∷ h) l = ground (arith, load-store p e f h)

find_watch-epoll_mod :
    (fd p : ℕ) (i : Interest) (w : Watch) (ws : List Watch)
    → find_watch fd ws ≡ some w
    → find_watch fd (epoll_mod fd i p ws) ≡ some (record { fd = fd; events = i; ptr = p })
unfolding find_watch epoll_mod
find_watch-epoll_mod fd p i w [] f = cc
find_watch-epoll_mod fd p i w (v ∷ ws) f = ground (arith, find_watch-epoll_mod fd p i w ws)

dispatch-load :
    (a : Answers) (w : Watch) (e : MyEvent) (s : Reactor)
    → load w.ptr s.heap ≡ some e
    → dispatch a w s ≡ some (call_event a w.ptr e s)
unfolding dispatch
dispatch-load a w e s l = rw (l, dispatch) refl

-- Where a descriptor is watched and its object is to read, an event that receives bytes and then an
-- event that sends, with no failure of `epoll_ctl`, add one message: the first 1024 of the received
-- bytes in upper case, cut to the number of bytes that `send` takes.
pub echo :
    (fd c k : ℕ) (cs old : Bytes) (w : Watch) (s : Reactor) (client client' unused : Option ℕ)
    (unread : Option Bytes)
    → find_watch fd s.watched ≡ some w
    → load w.ptr s.heap ≡ some (record { fd = fd; function = read_data; buf = old })
    → (t : Reactor) × (w' : Watch) × (u : Reactor) × (dispatch
          (record { client = client; received = some (c ∷ cs); accepted = unused; ctl = true })
          w
          s
        ≡ some t)
      × (find_watch fd t.watched ≡ some w')
      × (dispatch
            (record { client = client'; received = unread; accepted = some (suc k); ctl = true })
            w'
            t
          ≡ some u)
      × (u.sent ≡ s.sent ++ (fd, take (suc k) (map upper (take max_buffer_nums (c ∷ cs)))) ∷ [])
unfolding call_event on_read on_write
echo fd c k cs old w s client client' unused unread f l =
    let e : MyEvent = record {
      fd = fd;
      function = writr_data;
      buf = map upper (take max_buffer_nums (c ∷ cs));
    } in
    (
      _,
      _,
      _,
      dispatch-load _ w _ s l,
      find_watch-epoll_mod fd w.ptr epollout w s.watched f,
      dispatch-load _ (record { fd = fd; events = epollout; ptr = w.ptr }) e _
          (load-store w.ptr e _ s.heap l),
      refl,
    )
