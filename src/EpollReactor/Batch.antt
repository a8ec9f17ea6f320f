-- ===== src/EpollReactor/Batch.antt =====
-- The events that one call of `epoll_wait` reports, EpollReactor/src/main.cpp.
use cpp_tiny_lab.Base.{
  ℕ, ◌≡◌, refl, Bool, true, false, Option, none, some, some-injective, List, [], ◌∷◌, arith, subst,
  sym, ◌∙◌, zero, suc,
}
use cpp_tiny_lab.EpollReactor.{
  MyEvent, Callback, init_accept, read_data, writr_data, epollin, epollout, Watch, Reactor, Answers,
  load, epoll_del, hang_up, on_read, on_write, on_accept, call_event, dispatch, find_watch, init,
  Step, Reach, start, later,
}
use cpp_tiny_lab.EpollReactor.Memory.{IsOwned, IsSafe, owner-load, find_watch-owner}
use cpp_tiny_lab.Base.{◌>>=◌, All, ◌==◌, ap}
use cpp_tiny_lab.EpollReactor.{Interest, epoll_mod, Report, run_batch, IsOther, IsBatch, batch}
use cpp_tiny_lab.EpollReactor.Safe.{dispatch-cases, found-fd}

find_watch-epoll_del :
    (fd other : ℕ) (ws : List Watch)
    → (fd == other) ≡ false
    → find_watch other (epoll_del fd ws) ≡ find_watch other ws
unfolding find_watch epoll_del
find_watch-epoll_del fd other [] ne = refl
find_watch-epoll_del fd other (w ∷ ws) ne = ground (arith, find_watch-epoll_del fd other ws ne)

find_watch-epoll_mod-other :
    (fd other p : ℕ) (i : Interest) (ws : List Watch)
    → (fd == other) ≡ false
    → find_watch other (epoll_mod fd i p ws) ≡ find_watch other ws
unfolding find_watch epoll_mod
find_watch-epoll_mod-other fd other p i [] ne = refl
find_watch-epoll_mod-other fd other p i (w ∷ ws) ne =
    ground (arith, find_watch-epoll_mod-other fd other p i ws ne)

on_read-others :
    (r : Option (List ℕ)) (b : Bool) (fd p other : ℕ) (e : MyEvent) (s : Reactor)
    → (fd == other) ≡ false
    → find_watch other (on_read r b fd p e s).watched ≡ find_watch other s.watched
unfolding on_read hang_up
on_read-others none b fd p other e s ne = find_watch-epoll_del fd other s.watched ne
on_read-others (some []) b fd p other e s ne = find_watch-epoll_del fd other s.watched ne
on_read-others (some (c ∷ cs)) true fd p other e s ne =
    find_watch-epoll_mod-other fd other p epollout s.watched ne
on_read-others (some (c ∷ cs)) false fd p other e s ne = find_watch-epoll_del fd other s.watched ne

on_write-others :
    (n : Option ℕ) (b : Bool) (fd p other : ℕ) (e : MyEvent) (s : Reactor)
    → (fd == other) ≡ false
    → find_watch other (on_write n b fd p e s).watched ≡ find_watch other s.watched
unfolding on_write hang_up
on_write-others none b fd p other e s ne = find_watch-epoll_del fd other s.watched ne
on_write-others (some zero) b fd p other e s ne = find_watch-epoll_del fd other s.watched ne
on_write-others (some (suc k)) true fd p other e s ne =
    find_watch-epoll_mod-other fd other p epollin s.watched ne
on_write-others (some (suc k)) false fd p other e s ne = find_watch-epoll_del fd other s.watched ne

on_accept-others :
    (c : Option ℕ) (b : Bool) (fd other : ℕ) (s : Reactor)
    → (fd == other) ≡ false
    → IsOther c other
    → find_watch other (on_accept c b fd s).watched ≡ find_watch other s.watched
unfolding on_accept find_watch
on_accept-others none b fd other s ne v = refl
on_accept-others (some cfd) true fd other s ne v = ground arith
on_accept-others (some cfd) false fd other s ne v = find_watch-epoll_del fd other s.watched ne

call_event-others :
    (a : Answers) (c : Callback) (p other : ℕ) (e : MyEvent) (s : Reactor)
    → e.function ≡ c
    → (e.fd == other) ≡ false
    → IsOther a.client other
    → find_watch other (call_event a p e s).watched ≡ find_watch other s.watched
unfolding call_event
call_event-others a init_accept p other e s i ne v =
    rw (i, call_event) (on_accept-others a.client a.ctl e.fd other s ne v)
call_event-others a read_data p other e s i ne v =
    rw (i, call_event) (on_read-others a.received a.ctl e.fd p other e s ne)
call_event-others a writr_data p other e s i ne v =
    rw (i, call_event) (on_write-others a.accepted a.ctl e.fd p other e s ne)

dispatch-others :
    (a : Answers) (fd other : ℕ) (w : Watch) (s t : Reactor) (o : Option MyEvent)
    → load w.ptr s.heap ≡ o
    → find_watch fd s.watched ≡ some w
    → IsSafe s
    → dispatch a w s ≡ some t
    → (fd == other) ≡ false
    → IsOther a.client other
    → find_watch other t.watched ≡ find_watch other s.watched
unfolding dispatch
dispatch-others a fd other w s t none l f h d ne v =
    cc (owner-load w.ptr s.heap l, find_watch-owner fd w s.heap s.watched h.0 f)
dispatch-others a fd other w s t (some e) l f h d ne v =
    let called : dispatch a w s ≡ some (call_event a w.ptr e s) = rw (l, dispatch) refl in
    subst (λ (u : Reactor). find_watch other u.watched ≡ find_watch other s.watched)
      (some-injective _ _ (sym called ∙ d))
      (call_event-others a e.function w.ptr other e s refl
        (subst (λ k. (k == other) ≡ false) (sym (found-fd fd w e s h f l)) ne) v)

-- What is left of a batch when one of its events has been handled.
IsBatch-rest :
    (a : Answers) (fd : ℕ) (s t : Reactor)
    → ((other : ℕ)
        → (fd == other) ≡ false
        → IsOther a.client other
        → find_watch other t.watched ≡ find_watch other s.watched)
    → (reports : List Report)
    → All (λ (r : Report). ((fd == r.1) ≡ false) × IsOther a.client r.1) reports
    → IsBatch s reports
    → IsBatch t reports
IsBatch-rest a fd s t same [] others h = tt
IsBatch-rest a fd s t same ((b, k, w) ∷ reports) others h =
    (same k others.0.0 others.0.1 ∙ h.0, h.1, IsBatch-rest a fd s t same reports others.1 h.2)

pub run_batch-IsSafe :
    (reports : List Report) (s : Reactor)
    → IsSafe s
    → IsBatch s reports
    → (t : Reactor) × (run_batch reports s ≡ some t) × IsSafe t
unfolding run_batch
run_batch-IsSafe [] s h b = (s, refl, h)
run_batch-IsSafe ((a, fd, w) ∷ reports) s h b =
    let (t, d, h') = dispatch-cases a fd w s (load w.ptr s.heap) refl b.0 h in
    let rest =
      IsBatch-rest a fd s t
        (λ other. dispatch-others a fd other w s t (load w.ptr s.heap) refl b.0 h d) reports b.1
        b.2 in
    let (u, r, h'') = run_batch-IsSafe reports t h' rest in
    (u, ap (λ (o : Option Reactor). o >>= run_batch reports) d ∙ r, h'')

Step-IsSafe : {s t : Reactor} → Step s t → IsSafe s → IsSafe t
Step-IsSafe {s = s} (batch reports b r) h =
    let (t', r', h') = run_batch-IsSafe reports s h b in
    subst IsSafe (some-injective _ _ (sym r' ∙ r)) h'

pub init-IsSafe : (sockfd : ℕ) → IsSafe (init sockfd)
unfolding init
init-IsSafe sockfd = ((ground arith, refl, tt), (omega arith, tt))

Reach-IsSafe : (sockfd : ℕ) {s : Reactor} → Reach sockfd s → IsSafe s
Reach-IsSafe sockfd start = init-IsSafe sockfd
Reach-IsSafe sockfd (later r st) = Step-IsSafe st (Reach-IsSafe sockfd r)

-- At any time each registration of epoll points to an object that is allocated and holds the
-- registered descriptor, and no two registrations point to the same object.
pub Reach-IsOwned : (sockfd : ℕ) {s : Reactor} → Reach sockfd s → IsOwned s.heap s.watched
Reach-IsOwned sockfd r = (Reach-IsSafe sockfd r).0

-- At any time the events that one call of `epoll_wait` reports can all be handled: none of their
-- callbacks is called on an object that was freed, by the callbacks before it in the batch either.
pub run_batch-ne-none :
    (sockfd : ℕ) {s : Reactor}
    → Reach sockfd s
    → (reports : List Report) → IsBatch s reports
    → ¬ (run_batch reports s ≡ none)
run_batch-ne-none sockfd {s = s} r reports b e =
    let (t, d, h) = run_batch-IsSafe reports s (Reach-IsSafe sockfd r) b in cc (d, e)
