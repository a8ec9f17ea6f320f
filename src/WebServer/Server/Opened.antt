-- ===== src/WebServer/Server/Opened.antt =====
-- Which descriptors the calls of WebServer/src/ leave open.
use cpp_tiny_lab.Base.{
  ℕ, ◌≡◌, refl, Bool, true, false, List, [], ◌∷◌, ◌++◌, if◌then◌else◌, ◌==◌, arith, All,
}
use cpp_tiny_lab.WebServer.Connections.{
  Hash, Effect, accepted, send, epoll_del, close, last_active, is_idle, check_connect,
}
use cpp_tiny_lab.WebServer.Connections.Sweep.{has_key, IsMap}
use cpp_tiny_lab.WebServer.Handler.Served.{IsSend}
use cpp_tiny_lab.WebServer.Server.{opened_after}

pub opened_after-append :
    (fd : ℕ) (b : Bool) (es fs : List Effect)
    → opened_after fd b (es ++ fs) ≡ opened_after fd (opened_after fd b es) fs
opened_after-append fd b [] fs = refl
opened_after-append fd b (accepted k ∷ es) fs =
    opened_after-append fd (if k == fd then true else b) es fs
opened_after-append fd b (close k ∷ es) fs =
    opened_after-append fd (if k == fd then false else b) es fs
opened_after-append fd b (send k t ∷ es) fs = opened_after-append fd b es fs
opened_after-append fd b (epoll_del k ∷ es) fs = opened_after-append fd b es fs

pub opened_after-sends :
    (fd cfd : ℕ) (b : Bool) (es : List Effect) → All (IsSend cfd) es → opened_after fd b es ≡ b
opened_after-sends fd cfd b [] h = refl
opened_after-sends fd cfd b (send k t ∷ es) h = opened_after-sends fd cfd b es h.1
opened_after-sends fd cfd b (accepted k ∷ es) h = absurd h.0
opened_after-sends fd cfd b (close k ∷ es) h = absurd h.0
opened_after-sends fd cfd b (epoll_del k ∷ es) h = absurd h.0

pub opened_after-absent :
    (now : ℕ → ℕ) (fd : ℕ) (b : Bool) (h : Hash)
    → has_key fd h ≡ false
    → opened_after fd b (check_connect now h).1 ≡ b
unfolding check_connect
opened_after-absent now fd b [] e = refl
opened_after-absent now fd b ((k, info) ∷ h) e = ground (arith, opened_after-absent now fd b h)

pub opened_after-walk :
    (now : ℕ → ℕ) (fd : ℕ) (b : Bool) (h : Hash)
    → IsMap h
    → opened_after fd b (check_connect now h).1
      ≡ (if is_idle (now fd) (last_active fd h) then false else b)
unfolding check_connect
opened_after-walk now fd b [] m = refl
opened_after-walk now fd b ((k, info) ∷ h) m = ground (
  arith,
  opened_after-walk now fd b h m.1,
  opened_after-absent now k b h m.0,
  opened_after-absent now k false h m.0,
)
