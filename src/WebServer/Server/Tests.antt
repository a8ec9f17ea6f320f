-- ===== src/WebServer/Server/Tests.antt =====
-- A run of the loop of WebServer/src/main.cpp with an event that a walk makes stale.
use cpp_tiny_lab.Base.{◌≡◌, refl, ℕ, true, none, some, [], ◌∷◌, ◌++◌, inl, inr}
use cpp_tiny_lab.WebServer.Connections.{
  set_time, set_address, hang_up, check_connect, get_connect_count,
}
use cpp_tiny_lab.WebServer.Handler.{Files, failed, http_request}
use cpp_tiny_lab.WebServer.Server.{
  Server, init, accept_client, handle_event, sweep, Answers, on_event, on_events, waiting, Reach,
  start, later, reports, events, walk,
}
use cpp_tiny_lab.WebServer.Server.Counted.{get_connect_count-open}
use cpp_tiny_lab.WebServer.Server.Consistent.{IsConsistent, Reach-IsConsistent}

abbrev no_files : Files
no_files = record { stat = λ p. none; open_file = λ p. none; scandir = λ p. none; stack = λ p. [] }

-- `accept` gives 5 in the first batch. The second reports 5, a walk closes it, and `recv` fails.
abbrev answers : ℕ → Answers
answers i = record { client = some 5; address = 1; ctl = true; now = 10; received = failed }

abbrev with_client : Server
with_client = accept_client 5 10 1 init

abbrev after_walk : Server
after_walk = sweep (λ fd. 100) with_client

abbrev after_stale : Server
after_stale = record {
  hash = set_time 5 none (set_time 5 (some 10) after_walk.hash);
  trace = after_walk.trace ++ hang_up 5;
}

stale_run : Reach 3 no_files (record { server = after_stale; phase = waiting })
unfolding handle_event http_request on_events on_event accept_client sweep check_connect set_time
    set_address
stale_run =
    later
      (later
        (later
          (later (later start (reports (3 ∷ []) refl (inl refl, tt)))
            (events (3 ∷ []) answers refl ((refl, λ o. refl), λ t e. tt) refl))
          (reports (5 ∷ []) refl (inr refl, tt)))
        (walk (λ fd. 100)))
      (events (5 ∷ []) answers refl ((refl, λ o. refl), λ t e. tt) refl)

Reach-IsConsistent_example : IsConsistent after_stale
Reach-IsConsistent_example = Reach-IsConsistent stale_run

get_connect_count-open_example : get_connect_count after_stale.hash ≡ 0
unfolding sweep check_connect set_time set_address accept_client
get_connect_count-open_example = get_connect_count-open stale_run
