-- ===== src/EpollReactor/MainLoop.antt =====
-- The loop of `main` over the calls of `epoll_wait`, with its end, EpollReactor/src/main.cpp.
use cpp_tiny_lab.Base.{
  ◌>>=◌, ℕ, ◌≡◌, ◌<◌, refl, Bool, true, false, Option, none, some, some-injective, List, [], ◌∷◌,
  ◌==◌, ◌≢◌, arith, subst, sym, ◌∙◌, ap, zero, suc, bind-some,
}
use cpp_tiny_lab.EpollReactor.{
  MyEvent, Callback, init_accept, read_data, writr_data, Watch, Reactor, Answers, load, store, free,
  close_fd, hang_up, on_read, on_write, on_accept, call_event, dispatch, init, Report, run_batch,
  IsBatch,
}
use cpp_tiny_lab.EpollReactor.Batch.{run_batch-IsSafe, init-IsSafe}
use cpp_tiny_lab.EpollReactor.Memory.{IsSafe}

-- What a call of `epoll_wait` returns: EINTR, another error, or events.
pub data Wait : Type 0 where
  interrupted failed : Wait
  reported : List Report → Wait

-- `delete p_myEvent` and `close(sockfd)` behind the loop; `none` where the object was freed before.
shut_down : ℕ → Reactor → Option Reactor
shut_down sockfd s = elim (load 0 s.heap) [
  | none ↦ none
  | some e ↦ some (record s { heap = free 0 s.heap; opened = close_fd sockfd s.opened })
]

-- `main` over what `epoll_wait` returns; at the end of the list it waits.
pub main_loop : ℕ → List Wait → Reactor → Option Reactor
unfolding shut_down
main_loop sockfd [] s = some s
main_loop sockfd (interrupted ∷ waits) s = main_loop sockfd waits s
main_loop sockfd (failed ∷ waits) s = shut_down sockfd s
main_loop sockfd (reported reports ∷ waits) s = run_batch reports s >>= main_loop sockfd waits

-- Each batch is one that the kernel can report at the state that it meets.
abbrev pub AreWaits : List Wait → Reactor → Type 0
AreWaits [] s = Unit
AreWaits (interrupted ∷ waits) s = AreWaits waits s
AreWaits (failed ∷ waits) s = Unit
AreWaits (reported reports ∷ waits) s =
    IsBatch s reports × ((t : Reactor) → run_batch reports s ≡ some t → AreWaits waits t)

load-free : (p q : ℕ) (h : List (ℕ × MyEvent)) → (p == q) ≡ false → load q (free p h) ≡ load q h
unfolding load free
load-free p q [] ne = refl
load-free p q ((k, e) ∷ h) ne = ground (arith, load-free p q h ne)

load-store :
    (p q : ℕ) (e : MyEvent) (h : List (ℕ × MyEvent))
    → (p == q) ≡ false
    → load q (store p e h) ≡ load q h
unfolding load store
load-store p q e [] ne = refl
load-store p q e ((k, f) ∷ h) ne = ground (arith, load-store p q e h ne)

-- The object that `main` made is there, and new addresses are above its own.
abbrev IsListening : ℕ → Reactor → Type 0
IsListening sockfd s =
    (load 0 s.heap ≡ some (record { fd = sockfd; function = init_accept; buf = [] }))
    × (0 < s.fresh)

module _ (sockfd p : ℕ) (other : (p == 0) ≡ false) where
  hang_up-IsListening :
      (fd : ℕ) (s : Reactor) → IsListening sockfd s → IsListening sockfd (hang_up fd p s)
  unfolding hang_up
  hang_up-IsListening fd s h = (load-free p 0 s.heap other ∙ h.0, h.1)

  on_read-IsListening :
      (r : Option (List ℕ)) (b : Bool) (fd : ℕ) (e : MyEvent) (s : Reactor)
      → IsListening sockfd s
      → IsListening sockfd (on_read r b fd p e s)
  unfolding on_read
  on_read-IsListening none b fd e s h = hang_up-IsListening fd s h
  on_read-IsListening (some []) b fd e s h = hang_up-IsListening fd s h
  on_read-IsListening (some (c ∷ cs)) true fd e s h = (load-store p 0 _ s.heap other ∙ h.0, h.1)
  on_read-IsListening (some (c ∷ cs)) false fd e s h =
      hang_up-IsListening fd _ (load-store p 0 _ s.heap other ∙ h.0, h.1)

  on_write-IsListening :
      (n : Option ℕ) (b : Bool) (fd : ℕ) (e : MyEvent) (s : Reactor)
      → IsListening sockfd s
      → IsListening sockfd (on_write n b fd p e s)
  unfolding on_write
  on_write-IsListening none b fd e s h = hang_up-IsListening fd s h
  on_write-IsListening (some zero) b fd e s h = hang_up-IsListening fd s h
  on_write-IsListening (some (suc k)) true fd e s h = (load-store p 0 _ s.heap other ∙ h.0, h.1)
  on_write-IsListening (some (suc k)) false fd e s h =
      hang_up-IsListening fd _ (load-store p 0 _ s.heap other ∙ h.0, h.1)

on_accept-IsListening :
    (sockfd : ℕ) (c : Option ℕ) (b : Bool) (fd : ℕ) (s : Reactor)
    → IsListening sockfd s
    → IsListening sockfd (on_accept c b fd s)
unfolding on_accept load
on_accept-IsListening sockfd none b fd s h = h
on_accept-IsListening sockfd (some cfd) true fd s h = (ground arith, omega arith)
on_accept-IsListening sockfd (some cfd) false fd s h = (h.0, omega arith)

other-object :
    (sockfd : ℕ) (c : Callback) (p : ℕ) (e : MyEvent) (s : Reactor)
    → e.function ≡ c
    → c ≢ init_accept
    → load p s.heap ≡ some e
    → IsListening sockfd s
    → (p == 0) ≡ false
other-object sockfd c zero e s i ne l h =
    absurd (ne (sym i ∙ ap (λ (f : MyEvent). f.function) (some-injective _ _ (sym l ∙ h.0))))
other-object sockfd c (suc p) e s i ne l h = ground arith

-- A callback other than `init_accept` is not called on the object of the listening descriptor.
call_event-IsListening :
    (sockfd : ℕ) (a : Answers) (c : Callback) (p : ℕ) (e : MyEvent) (s : Reactor)
    → e.function ≡ c
    → load p s.heap ≡ some e
    → IsListening sockfd s
    → IsListening sockfd (call_event a p e s)
unfolding call_event
call_event-IsListening sockfd a init_accept p e s i l h =
    rw (i, call_event) (on_accept-IsListening sockfd a.client a.ctl e.fd s h)
call_event-IsListening sockfd a read_data p e s i l h =
    rw (i, call_event)
      (on_read-IsListening sockfd p (other-object sockfd read_data p e s i (λ q. cc) l h) a.received
        a.ctl e.fd e s h)
call_event-IsListening sockfd a writr_data p e s i l h =
    rw (i, call_event)
      (on_write-IsListening sockfd p (other-object sockfd writr_data p e s i (λ q. cc) l h)
        a.accepted a.ctl e.fd e s h)

dispatch-IsListening :
    (sockfd : ℕ) (a : Answers) (w : Watch) (s t : Reactor) (o : Option MyEvent)
    → load w.ptr s.heap ≡ o
    → IsListening sockfd s
    → dispatch a w s ≡ some t
    → IsListening sockfd t
unfolding dispatch
dispatch-IsListening sockfd a w s t none l h d = cc (rw (l, dispatch) at d)
dispatch-IsListening sockfd a w s t (some e) l h d =
    subst (IsListening sockfd) (some-injective _ _ (rw (l, dispatch) at d))
      (call_event-IsListening sockfd a e.function w.ptr e s refl l h)

run_batch-IsListening :
    (sockfd : ℕ) (reports : List Report) (s t : Reactor)
    → IsListening sockfd s
    → run_batch reports s ≡ some t
    → IsListening sockfd t
unfolding run_batch
run_batch-IsListening sockfd [] s t h r = subst (IsListening sockfd) (some-injective _ _ r) h
run_batch-IsListening sockfd ((a, fd, w) ∷ reports) s t h r =
    let (u, d, r') = bind-some (dispatch a w s) _ t r in
    run_batch-IsListening sockfd reports u t
      (dispatch-IsListening sockfd a w s u (load w.ptr s.heap) refl h d) r'

shut_down-some :
    (sockfd : ℕ) (s : Reactor)
    → IsListening sockfd s
    → (t : Reactor) × (shut_down sockfd s ≡ some t)
unfolding shut_down
shut_down-some sockfd s h =
    (record s { heap = free 0 s.heap; opened = close_fd sockfd s.opened }, rw (h.0, shut_down))

main_loop-some :
    (sockfd : ℕ) (waits : List Wait) (s : Reactor)
    → IsSafe s
    → IsListening sockfd s
    → AreWaits waits s
    → (t : Reactor) × (main_loop sockfd waits s ≡ some t)
unfolding main_loop
main_loop-some sockfd [] s h l v = (s, refl)
main_loop-some sockfd (interrupted ∷ waits) s h l v = main_loop-some sockfd waits s h l v
main_loop-some sockfd (failed ∷ waits) s h l v = shut_down-some sockfd s l
main_loop-some sockfd (reported reports ∷ waits) s h l v =
    let (t, r, h') = run_batch-IsSafe reports s h v.0 in
    let (u, m) =
      main_loop-some sockfd waits t h' (run_batch-IsListening sockfd reports s t l r) (v.1 t r) in
    (u, ap (λ (o : Option Reactor). o >>= main_loop sockfd waits) r ∙ m)

-- Whatever each call of `epoll_wait` returns, an error included, `main` uses and deletes no object
-- that was freed before: it gets through all that was reported, and at its end the object of the
-- listening descriptor is still there to be deleted.
pub main_loop-ne-none :
    (sockfd : ℕ) (waits : List Wait)
    → AreWaits waits (init sockfd)
    → ¬ (main_loop sockfd waits (init sockfd) ≡ none)
unfolding init load
main_loop-ne-none sockfd waits v e =
    let (t, m) =
      main_loop-some sockfd waits (init sockfd) (init-IsSafe sockfd) (refl, omega arith) v in
    cc (m, e)
