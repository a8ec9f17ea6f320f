-- ===== src/WebServer/Setup/Tests.antt =====
-- `main` of WebServer/src/main.cpp where a thread cannot be made.
use cpp_tiny_lab.Base.{◌≡◌, refl, true, false, some, [], ◌∷◌}
use cpp_tiny_lab.Base.Bytes.{codes, span}
use cpp_tiny_lab.Base.Int.{pos}
use cpp_tiny_lab.Base.Numerals.{to_uint16, atoi}
use cpp_tiny_lab.WebServer.Setup.{Calls, ready, set_up}

-- EAGAIN for the first thread.
abbrev calls : Calls
calls = record {
  cwd = codes "/srv/src";
  socket = some 3;
  bind = true;
  listen = true;
  epoll_create = some 4;
  check_connect = pos 11;
  get_connect_count = pos 0;
  epoll_ctl = true;
}

without_check_connect :
    set_up (codes "server" ∷ codes "127.0.0.1" ∷ codes "8080" ∷ []) calls
    ≡ some (ready (codes "/srv/src/../webpath") (codes "127.0.0.1") 8080 3 4 false true)
unfolding set_up to_uint16 atoi span
without_check_connect = refl
