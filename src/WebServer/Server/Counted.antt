-- ===== src/WebServer/Server/Counted.antt =====
-- The number that `getConnectCount` of WebServer/src/webServer.cpp prints.
use cpp_tiny_lab.Base.{
  ℕ, suc, ◌≡◌, refl, sym, ◌∙◌, ap, Bool, true, false, ◌||◌, none, some, List, [], ◌∷◌,
  if◌then◌else◌, ◌==◌, length, arith, Bool-cases, inl, inr, subst, ==_iff, ◌⊎◌,
}
use cpp_tiny_lab.WebServer.Connections.{
  Hash, Effect, accepted, send, epoll_del, close, is_active, get_connect_count,
}
use cpp_tiny_lab.WebServer.Connections.Sweep.{has_key, IsMap}
use cpp_tiny_lab.WebServer.Handler.{Files}
use cpp_tiny_lab.WebServer.Server.{opened_after, Loop, Reach}
use cpp_tiny_lab.WebServer.Server.Consistent.{Reach-IsConsistent}

abbrev pub mem : ℕ → List ℕ → Bool
mem fd [] = false
mem fd (k ∷ ks) = k == fd || mem fd ks

abbrev pub remove : ℕ → List ℕ → List ℕ
remove fd [] = []
remove fd (k ∷ ks) = let rest = remove fd ks in if k == fd then rest else k ∷ rest

-- The descriptors that the calls leave open, each once.
abbrev pub still_open : List ℕ → List Effect → List ℕ
still_open fds [] = fds
still_open fds (accepted k ∷ es) = still_open (k ∷ remove k fds) es
still_open fds (close k ∷ es) = still_open (remove k fds) es
still_open fds (send k t ∷ es) = still_open fds es
still_open fds (epoll_del k ∷ es) = still_open fds es

abbrev IsDistinct : List ℕ → Type 0
IsDistinct [] = Unit
IsDistinct (k ∷ ks) = (mem k ks ≡ false) × IsDistinct ks

mem-remove :
    (fd k : ℕ) (ks : List ℕ) → mem fd (remove k ks) ≡ (if k == fd then false else mem fd ks)
mem-remove fd k [] = ground arith
mem-remove fd k (j ∷ ks) = ground (arith, mem-remove fd k ks)

remove-absent : (k : ℕ) (ks : List ℕ) → mem k ks ≡ false → remove k ks ≡ ks
remove-absent k [] h = refl
remove-absent k (j ∷ ks) h = ground (arith, remove-absent k ks)

length-remove :
    (k : ℕ) (ks : List ℕ) → IsDistinct ks → mem k ks ≡ true → length ks ≡ suc (length (remove k ks))
length-remove k [] s h = cc
length-remove k (j ∷ ks) s h = elim (Bool-cases (j == k)) [
  | inl e ↦
      let gone : mem k ks ≡ false = subst (λ i. mem i ks ≡ false) ((==_iff j k).0 e) s.0 in
      rw (e, remove) (ap (λ l. suc (length l)) (sym (remove-absent k ks gone)))
  | inr e ↦ rw (e, remove) (ap suc (length-remove k ks s.1 (rw (e, mem) at h)))
]

remove-IsDistinct : (k : ℕ) (ks : List ℕ) → IsDistinct ks → IsDistinct (remove k ks)
remove-IsDistinct k [] s = tt
remove-IsDistinct k (j ∷ ks) s = ground (arith, mem-remove j k ks, remove-IsDistinct k ks s.1)

-- Two lists of the same descriptors, each once, are of one length.
length-eq_of_mem :
    (xs ys : List ℕ)
    → IsDistinct xs
    → IsDistinct ys
    → ((fd : ℕ) → mem fd xs ≡ mem fd ys)
    → length xs ≡ length ys
length-eq_of_mem [] [] s t h = refl
length-eq_of_mem [] (y ∷ ys) s t h = cc (h y, (==_iff y y).1 refl)
length-eq_of_mem (x ∷ xs) ys s t h =
    let found : mem x ys ≡ true = sym (h x) ∙ (rw ((==_iff x x).1 refl) refl) in
    ap suc (
      length-eq_of_mem xs (remove x ys) s.1 (remove-IsDistinct x ys t)
        (λ fd. same fd (Bool-cases (x == fd))))
    ∙ sym (length-remove x ys t found)
  where
    same : (fd : ℕ) → (x == fd ≡ true) ⊎ (x == fd ≡ false) → mem fd xs ≡ mem fd (remove x ys)
    same fd (inl e) =
        subst (λ i. mem i xs ≡ false) ((==_iff x fd).0 e) s.0
        ∙ sym (mem-remove fd x ys ∙ (rw e refl))
    same fd (inr e) = (rw (e, mem) at (h fd)) ∙ sym (mem-remove fd x ys ∙ (rw e refl))

still_open-IsDistinct :
    (fds : List ℕ) (es : List Effect) → IsDistinct fds → IsDistinct (still_open fds es)
still_open-IsDistinct fds [] s = s
still_open-IsDistinct fds (accepted k ∷ es) s =
    still_open-IsDistinct (k ∷ remove k fds) es
      (mem-remove k k fds ∙ (rw ((==_iff k k).1 refl) refl), remove-IsDistinct k fds s)
still_open-IsDistinct fds (close k ∷ es) s =
    still_open-IsDistinct (remove k fds) es (remove-IsDistinct k fds s)
still_open-IsDistinct fds (send k t ∷ es) s = still_open-IsDistinct fds es s
still_open-IsDistinct fds (epoll_del k ∷ es) s = still_open-IsDistinct fds es s

mem-still_open :
    (fd : ℕ) (fds : List ℕ) (es : List Effect)
    → mem fd (still_open fds es) ≡ opened_after fd (mem fd fds) es
mem-still_open fd fds [] = refl
mem-still_open fd fds (accepted k ∷ es) =
    mem-still_open fd (k ∷ remove k fds) es
    ∙ ap (λ b. opened_after fd b es) (ground (arith, mem-remove fd k fds))
mem-still_open fd fds (close k ∷ es) =
    mem-still_open fd (remove k fds) es ∙ ap (λ b. opened_after fd b es) (mem-remove fd k fds)
mem-still_open fd fds (send k t ∷ es) = mem-still_open fd fds es
mem-still_open fd fds (epoll_del k ∷ es) = mem-still_open fd fds es

-- The descriptors that the table marks as active.
abbrev active_fds : Hash → List ℕ
active_fds [] = []
active_fds ((fd, info) ∷ h) = elim info.last_active_time [
  | none ↦ active_fds h
  | some t ↦ fd ∷ active_fds h
]

mem-absent : (fd : ℕ) (h : Hash) → has_key fd h ≡ false → mem fd (active_fds h) ≡ false
mem-absent fd [] e = refl
mem-absent fd ((k, info) ∷ h) e = ground (arith, mem-absent fd h)

mem-active_fds : (fd : ℕ) (h : Hash) → IsMap h → mem fd (active_fds h) ≡ is_active fd h
mem-active_fds fd [] m = refl
mem-active_fds fd ((k, info) ∷ h) m = ground (arith, mem-active_fds fd h m.1, mem-absent k h m.0)

active_fds-IsDistinct : (h : Hash) → IsMap h → IsDistinct (active_fds h)
active_fds-IsDistinct [] m = tt
active_fds-IsDistinct ((k, info) ∷ h) m =
    ground (arith, active_fds-IsDistinct h m.1, mem-absent k h m.0)

length-active_fds : (h : Hash) → get_connect_count h ≡ length (active_fds h)
unfolding get_connect_count
length-active_fds [] = refl
length-active_fds ((k, info) ∷ h) = ground (arith, length-active_fds h)

-- At any time the number that `getConnectCount` prints is that of the connections that are open.
pub get_connect_count-open :
    {sockfd : ℕ} {files : Files} {l : Loop}
    → Reach sockfd files l
    → get_connect_count l.server.hash ≡ length (still_open [] l.server.trace)
get_connect_count-open {l = l} r =
    let c = Reach-IsConsistent r in
    length-active_fds l.server.hash
    ∙ length-eq_of_mem (active_fds l.server.hash) (still_open [] l.server.trace)
        (active_fds-IsDistinct l.server.hash c.map) (still_open-IsDistinct [] l.server.trace tt)
        (λ fd.
          mem-active_fds fd l.server.hash c.map
          ∙ c.same fd
          ∙ sym (mem-still_open fd [] l.server.trace))
