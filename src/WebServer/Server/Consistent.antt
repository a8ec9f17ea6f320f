-- ===== src/WebServer/Server/Consistent.antt =====
-- The table of the server in WebServer/src/ against the descriptors that are open.
use cpp_tiny_lab.Base.{
  ℕ, ◌≡◌, refl, subst, true, false, none, some, List, [], ◌∷◌, ◌++◌, ◌==◌, arith, All, Option, suc,
  some-injective, Bool-cases, inl, inr, ◌∙◌, ap, bind-some, map-some,
}
use cpp_tiny_lab.WebServer.Connections.{
  Hash, Effect, accepted, close, set_time, is_active, hang_up, check_connect,
}
use cpp_tiny_lab.WebServer.Connections.Sweep.{
  IsMap, set_time-IsMap, set_address-IsMap, last_active-set_time, last_active-set_address,
  check_connect-IsMap, check_connect-idle, has_key-set_time_self,
}
use cpp_tiny_lab.WebServer.Handler.{Files, Received, failed, http_request}
use cpp_tiny_lab.WebServer.Handler.Served.{IsSend, Served, stays, ends, http_request-Served}
use cpp_tiny_lab.WebServer.Server.{
  Server, is_open, accept_client, handle_event, sweep, Outcome, running, returned, Answers,
  on_listen, on_event, on_events, IsFresh, IsAnswered, AreAnswered, Loop, after_events, Step,
  reports, interrupted, breaks, events, walk, Reach, start, later,
}
use cpp_tiny_lab.WebServer.Server.Opened.{
  opened_after-append, opened_after-sends, opened_after-walk,
}

-- A descriptor is marked active in the table exactly if it is open.
pub record IsConsistent (s : Server) : Type 0 where
  pub map : IsMap s.hash
  pub same : (fd : ℕ) → is_active fd s.hash ≡ is_open fd s

walk-IsConsistent : (now : ℕ → ℕ) (s : Server) → IsConsistent s → IsConsistent (sweep now s)
unfolding sweep
walk-IsConsistent now s c = record {
  map = check_connect-IsMap now s.hash c.map;
  same = λ fd. ground (
    arith,
    (check_connect-idle now fd s.hash c.map).1,
    opened_after-append fd false s.trace (check_connect now s.hash).1,
    opened_after-walk now fd (is_open fd s) s.hash c.map,
    c.same fd,
  );
}

accept-IsConsistent :
    (cfd now client : ℕ) (s : Server)
    → IsConsistent s
    → IsConsistent (accept_client cfd now client s)
unfolding accept_client
accept-IsConsistent cfd now client s c = record {
  map = set_address-IsMap cfd client _ (set_time-IsMap cfd (some now) s.hash c.map);
  same = λ fd. ground (
    arith,
    last_active-set_address cfd fd client (set_time cfd (some now) s.hash)
        (has_key-set_time_self cfd (some now) s.hash),
    last_active-set_time cfd fd (some now) s.hash,
    opened_after-append fd false s.trace (accepted cfd ∷ []),
    c.same fd,
  );
}

module _ (files : Files) (cfd now : ℕ) (s : Server) (c : IsConsistent s) where
  abbrev touched : Hash
  touched = set_time cfd (some now) s.hash

  ends-IsConsistent :
      (p : Hash × List Effect) (es : List Effect)
      → All (IsSend cfd) es
      → p ≡ (set_time cfd none touched, es ++ hang_up cfd)
      → IsConsistent (record { hash = p.0; trace = s.trace ++ p.1 })
  ends-IsConsistent p es h e = rw e (record {
    map = set_time-IsMap cfd none touched (set_time-IsMap cfd (some now) s.hash c.map);
    same = λ fd. ground (
      arith,
      last_active-set_time cfd fd none touched,
      last_active-set_time cfd fd (some now) s.hash,
      opened_after-append fd false s.trace (es ++ hang_up cfd),
      opened_after-append fd (is_open fd s) es (hang_up cfd),
      opened_after-sends fd cfd (is_open fd s) es h,
      c.same fd,
    );
  })

  Served-IsConsistent :
      (p : Hash × List Effect)
      → is_open cfd s ≡ true
      → Served cfd touched p
      → IsConsistent (record { hash = p.0; trace = s.trace ++ p.1 })
  Served-IsConsistent p o (stays es h e) = rw e (record {
    map = set_time-IsMap cfd (some now) s.hash c.map;
    same = λ fd. ground (
      arith,
      last_active-set_time cfd fd (some now) s.hash,
      opened_after-append fd false s.trace es,
      opened_after-sends fd cfd (is_open fd s) es h,
      c.same fd,
    );
  })
  Served-IsConsistent p o (ends es h e) = ends-IsConsistent p es h e

  -- An event on a descriptor that is not open, whose `recv` fails.
  stale-IsConsistent : {t : Server} → handle_event files cfd now failed s ≡ some t → IsConsistent t
  unfolding handle_event http_request
  stale-IsConsistent e = subst IsConsistent (some-injective _ _ e) (ends-IsConsistent _ [] tt refl)

  open-IsConsistent :
      (r : Received) {t : Server}
      → is_open cfd s ≡ true
      → handle_event files cfd now r s ≡ some t
      → IsConsistent t
  unfolding handle_event
  open-IsConsistent r o e =
      let (p, b, d) = map-some _ (http_request files cfd touched r) _ e in
      subst IsConsistent d (Served-IsConsistent p o (http_request-Served files cfd _ r p b))

abbrev OutcomeIsConsistent : Outcome → Type 0
OutcomeIsConsistent (running s) = IsConsistent s
OutcomeIsConsistent (returned s) = IsConsistent s

-- A connection that `epoll_ctl` does not take is closed at once.
rejected-IsConsistent :
    (cfd : ℕ) (s : Server)
    → is_open cfd s ≡ false
    → IsConsistent s
    → IsConsistent (record s { trace = s.trace ++ accepted cfd ∷ close cfd ∷ [] })
rejected-IsConsistent cfd s o c = record {
  map = c.map;
  same = λ fd.
      ground
        (arith, opened_after-append fd false s.trace (accepted cfd ∷ close cfd ∷ []), c.same fd);
}

on_listen-IsConsistent :
    (a : Answers) (client : Option ℕ) (s : Server)
    → IsFresh client s
    → IsConsistent s
    → OutcomeIsConsistent (on_listen a client s)
unfolding on_listen
on_listen-IsConsistent a none s f c = c
on_listen-IsConsistent a (some cfd) s f c = elim (Bool-cases a.ctl) [
  | inl o ↦ rw (o, on_listen) (accept-IsConsistent cfd a.now a.address s c)
  | inr o ↦ rw (o, on_listen) (rejected-IsConsistent cfd s f c)
]

on_event-IsConsistent :
    (sockfd : ℕ) (files : Files) (a : Answers) (fd : ℕ) (s : Server) (o : Outcome)
    → IsAnswered a fd s
    → IsConsistent s
    → on_event sockfd files a fd s ≡ some o
    → OutcomeIsConsistent o
unfolding on_event
on_event-IsConsistent sockfd files a fd s o f c e = elim (Bool-cases (fd == sockfd)) [
  | inl l ↦
      subst OutcomeIsConsistent (some-injective _ _ (rw (l, on_event) at e))
        (on_listen-IsConsistent a a.client s f.0 c)
  | inr l ↦
      let (t, h, d) = map-some running _ o (rw (l, on_event) at e) in
      subst OutcomeIsConsistent d (elim (Bool-cases (is_open fd s)) [
        | inl i ↦ open-IsConsistent files fd a.now s c a.received i h
        | inr i ↦ stale-IsConsistent files fd a.now s c (rw (f.1 i) at h)
      ])
]

-- The rest of a batch, by what its first event came to.
rest-IsConsistent :
    (sockfd : ℕ) (files : Files) (answers : ℕ → Answers) (i : ℕ) (fds : List ℕ) (p o : Outcome)
    → ((t : Server)
        → p ≡ running t
        → IsConsistent t
        → on_events sockfd files answers i fds t ≡ some o
        → OutcomeIsConsistent o)
    → (elim p [
      | running t ↦ on_events sockfd files answers i fds t
      | returned t ↦ some (returned t)
    ])
      ≡ some o
    → OutcomeIsConsistent p
    → OutcomeIsConsistent o
rest-IsConsistent sockfd files answers i fds (running t) o goes d c = goes t refl c d
rest-IsConsistent sockfd files answers i fds (returned t) o goes d c =
    subst OutcomeIsConsistent (some-injective _ _ d) c

on_events-IsConsistent :
    (sockfd : ℕ) (files : Files) (answers : ℕ → Answers) (i : ℕ) (fds : List ℕ) (s : Server)
    (o : Outcome)
    → AreAnswered sockfd files answers i fds s
    → IsConsistent s
    → on_events sockfd files answers i fds s ≡ some o
    → OutcomeIsConsistent o
unfolding on_events
on_events-IsConsistent sockfd files answers i [] s o f c e =
    subst OutcomeIsConsistent (some-injective _ _ e) c
on_events-IsConsistent sockfd files answers i (fd ∷ fds) s o f c e =
    let (p, h, d) = bind-some (on_event sockfd files (answers i) fd s) _ o e in
    rest-IsConsistent sockfd files answers (suc i) fds p o
      (λ t q k.
        on_events-IsConsistent sockfd files answers (suc i) fds t o (f.1 t (h ∙ ap some q)) k)
      d (on_event-IsConsistent sockfd files (answers i) fd s p f.0 c h)

after_events-IsConsistent :
    (o : Outcome) → OutcomeIsConsistent o → IsConsistent (after_events o).server
after_events-IsConsistent (running s) c = c
after_events-IsConsistent (returned s) c = c

Step-IsConsistent :
    {sockfd : ℕ} {files : Files} {l m : Loop}
    → Step sockfd files l m
    → IsConsistent l.server
    → IsConsistent m.server
Step-IsConsistent (reports fds w h) c = c
Step-IsConsistent (interrupted w) c = c
Step-IsConsistent (breaks w) c = c
Step-IsConsistent {l = l} (walk now) c = walk-IsConsistent now l.server c
Step-IsConsistent {sockfd} {files} {l} (events fds answers {o} p a e) c =
    after_events-IsConsistent o (on_events-IsConsistent sockfd files answers 0 fds l.server o a c e)

-- However the events of the loop and the walks of the other threads interleave, walks between
-- `epoll_wait` and the lock included, the table marks as active exactly the connections that are
-- open, also where `main` returned.
pub Reach-IsConsistent :
    {sockfd : ℕ} {files : Files} {l : Loop} → Reach sockfd files l → IsConsistent l.server
Reach-IsConsistent start = record { map = tt; same = λ fd. refl }
Reach-IsConsistent (later r st) = Step-IsConsistent st (Reach-IsConsistent r)
