-- ===== src/EpollReactor/Safe.antt =====
-- The callbacks of EpollReactor/src/myEvents.cpp and the pointers that epoll holds.
use cpp_tiny_lab.Base.{
  ℕ, ◌≡◌, refl, Bool, true, false, Option, none, some, some-injective, List, [], ◌∷◌, arith, subst,
  sym, ◌∙◌, zero, suc,
}
use cpp_tiny_lab.EpollReactor.{
  MyEvent, Callback, init_accept, read_data, writr_data, epollin, epollout, Watch, Reactor, Answers,
  load, store, epoll_del, hang_up, on_read, on_write, on_accept, call_event, dispatch, find_watch,
}
use cpp_tiny_lab.EpollReactor.Memory.{
  owner, IsSafe, load-owner, owner-load, free-IsBelow, store-IsBelow, IsBelow-suc, free-IsOwned,
  store-IsOwned, new-IsOwned, epoll_del-IsOwned, find_watch-owner, del-has_ptr, epoll_mod-IsOwned,
}

hang_up-IsSafe :
    (fd : ℕ) (w : Watch) (s : Reactor)
    → find_watch fd s.watched ≡ some w
    → IsSafe s
    → IsSafe (hang_up fd w.ptr s)
unfolding hang_up
hang_up-IsSafe fd w s f h = (
  free-IsOwned w.ptr s.heap (epoll_del fd s.watched) (del-has_ptr fd w s.heap s.watched h.0 f)
      (epoll_del-IsOwned fd s.heap s.watched h.0),
  free-IsBelow s.fresh w.ptr s.heap h.1,
)

-- The object may be changed, as long as it keeps its descriptor.
store-IsSafe :
    (w : Watch) (e : MyEvent) (s : Reactor)
    → owner w.ptr s.heap ≡ some e.fd
    → IsSafe s
    → IsSafe (record s { heap = store w.ptr e s.heap })
store-IsSafe w e s o h =
    (store-IsOwned w.ptr e s.heap s.watched o h.0, store-IsBelow s.fresh w.ptr e s.heap h.1)

on_read-IsSafe :
    (r : Option (List ℕ)) (b : Bool) (fd : ℕ) (w : Watch) (e : MyEvent) (s : Reactor)
    → find_watch fd s.watched ≡ some w
    → owner w.ptr s.heap ≡ some e.fd
    → IsSafe s
    → IsSafe (on_read r b fd w.ptr e s)
unfolding on_read
on_read-IsSafe none b fd w e s f o h = hang_up-IsSafe fd w s f h
on_read-IsSafe (some []) b fd w e s f o h = hang_up-IsSafe fd w s f h
on_read-IsSafe (some (c ∷ cs)) true fd w e s f o h =
    let h' = store-IsSafe w (record e { function = writr_data; buf = _ }) s o h in
    (epoll_mod-IsOwned fd epollout w _ s.watched h'.0 f, h'.1)
on_read-IsSafe (some (c ∷ cs)) false fd w e s f o h =
    hang_up-IsSafe fd w (record s { heap = _ }) f
      (store-IsSafe w (record e { function = writr_data; buf = _ }) s o h)

on_write-IsSafe :
    (n : Option ℕ) (b : Bool) (fd : ℕ) (w : Watch) (e : MyEvent) (s : Reactor)
    → find_watch fd s.watched ≡ some w
    → owner w.ptr s.heap ≡ some e.fd
    → IsSafe s
    → IsSafe (on_write n b fd w.ptr e s)
unfolding on_write
on_write-IsSafe none b fd w e s f o h = hang_up-IsSafe fd w s f h
on_write-IsSafe (some zero) b fd w e s f o h = hang_up-IsSafe fd w s f h
on_write-IsSafe (some (suc k)) true fd w e s f o h =
    let h' = store-IsSafe w (record e { function = read_data }) s o h in
    (epoll_mod-IsOwned fd epollin w _ s.watched h'.0 f, h'.1)
on_write-IsSafe (some (suc k)) false fd w e s f o h =
    hang_up-IsSafe fd w
      (record s { heap = store w.ptr (record e { function = read_data }) s.heap; sent = _ }) f
      (store-IsSafe w (record e { function = read_data }) s o h)

on_accept-IsSafe :
    (c : Option ℕ) (b : Bool) (fd : ℕ) (s : Reactor) → IsSafe s → IsSafe (on_accept c b fd s)
unfolding on_accept
on_accept-IsSafe none b fd s h = h
on_accept-IsSafe (some cfd) true fd s h =
    let e : MyEvent = record { fd = cfd; function = read_data; buf = [] } in
    let (o, a) = new-IsOwned s.fresh e s.heap s.watched h.1 h.0 in
    ((ground arith, a, o), (omega arith, IsBelow-suc s.fresh s.heap h.1))
on_accept-IsSafe (some cfd) false fd s h =
    (epoll_del-IsOwned fd s.heap s.watched h.0, IsBelow-suc s.fresh s.heap h.1)

call_event-IsSafe :
    (a : Answers) (c : Callback) (w : Watch) (e : MyEvent) (s : Reactor)
    → e.function ≡ c
    → find_watch e.fd s.watched ≡ some w
    → owner w.ptr s.heap ≡ some e.fd
    → IsSafe s
    → IsSafe (call_event a w.ptr e s)
unfolding call_event
call_event-IsSafe a init_accept w e s i f o h =
    rw (i, call_event) (on_accept-IsSafe a.client a.ctl e.fd s h)
call_event-IsSafe a read_data w e s i f o h =
    rw (i, call_event) (on_read-IsSafe a.received a.ctl e.fd w e s f o h)
call_event-IsSafe a writr_data w e s i f o h =
    rw (i, call_event) (on_write-IsSafe a.accepted a.ctl e.fd w e s f o h)

pub found-fd :
    (fd : ℕ) (w : Watch) (e : MyEvent) (s : Reactor)
    → IsSafe s
    → find_watch fd s.watched ≡ some w
    → load w.ptr s.heap ≡ some e
    → e.fd ≡ fd
found-fd fd w e s h f l =
    some-injective _ _
      (sym (load-owner w.ptr s.heap e l) ∙ find_watch-owner fd w s.heap s.watched h.0 f)

pub dispatch-cases :
    (a : Answers) (fd : ℕ) (w : Watch) (s : Reactor) (o : Option MyEvent)
    → load w.ptr s.heap ≡ o
    → find_watch fd s.watched ≡ some w
    → IsSafe s
    → (t : Reactor) × (dispatch a w s ≡ some t) × IsSafe t
unfolding dispatch
dispatch-cases a fd w s none l f h =
    cc (owner-load w.ptr s.heap l, find_watch-owner fd w s.heap s.watched h.0 f)
dispatch-cases a fd w s (some e) l f h = (
  call_event a w.ptr e s,
  (rw (l, dispatch) refl),
  call_event-IsSafe a e.function w e s refl
      (subst (λ k. find_watch k s.watched ≡ some w) (sym (found-fd fd w e s h f l)) f)
      (load-owner w.ptr s.heap e l) h,
)
