-- ===== src/EpollReactor/Tests.antt =====
-- The callbacks of EpollReactor/src/myEvents.cpp at small inputs.
use cpp_tiny_lab.Base.{List, ◌≡◌, refl, true, none, some, some-injective, subst, [], ◌∷◌}
use cpp_tiny_lab.Base.Bytes.{codes}
use cpp_tiny_lab.EpollReactor.{
  Reactor, Answers, Watch, init, dispatch, find_watch, call_event, on_accept, load, epollin, Reach,
  start, later, batch, run_batch, Report,
}
use cpp_tiny_lab.EpollReactor.Memory.{IsOwned}
use cpp_tiny_lab.EpollReactor.Echo.{echo}
use cpp_tiny_lab.EpollReactor.MainLoop.{Wait, interrupted, failed, reported, AreWaits}
use cpp_tiny_lab.EpollReactor.Setup.{Calls, main, main-ne-none}
use cpp_tiny_lab.EpollReactor.Batch.{Reach-IsOwned, run_batch-ne-none}

-- A client on descriptor 5 connects and sends `hi`.
abbrev answers : Answers
answers = record { client = some 5; received = some (codes "hi"); accepted = some 2; ctl = true }

abbrev accepting : Watch
accepting = record { fd = 3; events = epollin; ptr = 0 }

abbrev client_watch : Watch
client_watch = record { fd = 5; events = epollin; ptr = 1 }

abbrev connected : Reactor
unfolding on_accept init
connected = on_accept (some 5) true 3 (init 3)

connected-Reach : Reach 3 connected
unfolding init find_watch dispatch load call_event connected run_batch
connected-Reach = later start (batch ((answers, 3, accepting) ∷ []) (refl, tt, tt) refl)

Reach-IsOwned_example : IsOwned connected.heap connected.watched
Reach-IsOwned_example = Reach-IsOwned 3 connected-Reach

-- The client sends, and hangs up at once, while another one connects.
abbrev next_client : Answers
next_client = record { client = some 6; received = none; accepted = none; ctl = true }

abbrev two_reports : List Report
two_reports = (next_client, 5, client_watch) ∷ (next_client, 3, accepting) ∷ []

abbrev calls : Calls
calls = record {
  socket = some 3;
  bind = true;
  listen = true;
  epoll_create = some 4;
  epoll_ctl = true;
}

-- A signal, then the first client, and an error of `epoll_wait`.
abbrev waits : List Wait
waits = interrupted ∷ reported ((answers, 3, accepting) ∷ []) ∷ failed ∷ []

waits-AreWaits : AreWaits waits (init 3)
unfolding find_watch init
waits-AreWaits = ((refl, tt, tt), λ t r. tt)

main-ne-none_example :
    ¬ (main (codes "reactor" ∷ codes "127.0.0.1" ∷ codes "8000" ∷ []) calls waits ≡ none)
main-ne-none_example =
    main-ne-none (codes "reactor") (codes "127.0.0.1") (codes "8000") [] calls waits
      (λ sockfd e. subst (λ k. AreWaits waits (init k)) (some-injective _ _ e) waits-AreWaits)

two_clients : ¬ (run_batch two_reports connected ≡ none)
unfolding find_watch connected init
two_clients =
    run_batch-ne-none 3 connected-Reach two_reports (refl, ((refl, refl), tt), (refl, tt, tt))

echo_example :
    (t : Reactor) × (w : Watch) × (u : Reactor) × (dispatch answers client_watch connected ≡ some t)
    × (find_watch 5 t.watched ≡ some w)
    × (dispatch answers w t ≡ some u)
    × (u.sent ≡ (5, codes "HI") ∷ [])
unfolding find_watch load connected
echo_example =
    echo 5 104 1 (105 ∷ []) [] client_watch connected (some 5) (some 5) (some 2) (some (codes "hi"))
      refl refl
