-- ===== src/Serve/Tests.antt =====
-- Starts without TLS.
use h2_server.Prelude.{
  ℕ, Option, some, none, true, ◌≡◌, refl, Bytes, Bool, false, List, [], ◌∷◌, length, map, All,
  arith,
}
use h2_server.LoadBalancer.Accept.{Server, connected, exhausted, interrupted}
use h2_server.LoadBalancer.Accept.Delivery.{IsSound, socket, Settled}
use h2_server.Options.{Parsed, h2c, thread_value, make}
use h2_server.Connection.{epollin}
use h2_server.Events.{put}
use h2_server.Epoll.{
  Epoll, done, listens, set_event, startup, create_listening_socket, create_epoll,
}
use h2_server.Serve.{
  Network, startup_on, Wait, woken, wait_interrupted, undefined, served, is_runnable, main,
}
use h2_server.Serve.Start.{main-Serves, main-zero_threads}

abbrev no_file : Bytes → Bool
no_file path = false

-- An epoll object that takes what it is asked for.
abbrev epoll : Epoll (ℕ → Option ℕ)
epoll = record {
  watches = λ e fd. e fd;
  ctl_mod = λ fd events e. (put fd (some events) e, done);
  ctl_add = λ fd events e. (put fd (some events) e, done);
  ctl_del = λ fd e. (put fd none e, done);
  mod_done = λ fd events e h other. refl;
  mod_absent = λ fd events e h. absurd cc;
  add_done = λ fd events e h other. refl;
  del_done = λ fd e h other. refl;
  del_absent = λ fd e h. absurd cc;
}

abbrev network : Network (ℕ → Option ℕ)
network = record {
  epoll = epoll;
  socket = some 3;
  is_bound = true;
  is_listening = λ sock. true;
  created = some (4, λ n. none);
}

network_started : startup_on network ≡ listens 3 (set_event epoll 3 epollin (λ n. none))
unfolding startup_on startup create_listening_socket create_epoll
network_started = refl

abbrev two_threads : List Parsed
two_threads = h2c ∷ thread_value 2 ∷ []

abbrev waits : List Wait
waits =
    woken (connected 8 ∷ interrupted ∷ connected 9 ∷ exhausted ∷ [])
    ∷ wait_interrupted
    ∷ woken (connected 10 ∷ exhausted ∷ [])
    ∷ []

main-Serves_example :
    (server : Server) × (main network no_file two_threads waits ≡ served server)
    × IsSound server
    × (length server.workers ≡ 2)
    × (map socket server.fates ≡ 8 ∷ 9 ∷ 10 ∷ [])
    × All (Settled 2) server.fates
unfolding make is_runnable
main-Serves_example =
    main-Serves network no_file two_threads waits refl refl 3 _ network_started (omega arith)

main-zero_threads_example : main network no_file (h2c ∷ thread_value 256 ∷ []) waits ≡ undefined
unfolding make is_runnable
main-zero_threads_example =
    main-zero_threads network no_file (h2c ∷ thread_value 256 ∷ []) waits refl refl 3 _
      network_started 256 refl refl
