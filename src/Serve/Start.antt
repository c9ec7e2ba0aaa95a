-- ===== src/Serve/Start.antt =====
-- From the command line to the served sockets.
use h2_server.Prelude.{
  ℕ, ◌%◌, ◌^◌, ◌<◌, ◌≡◌, ◌≢◌, refl, sym, ap, subst, ◌∙◌, Bytes, Bool, true, false, Option, none,
  some, List, [], ◌++◌, length, All, map, arith,
}
use h2_server.LoadBalancer.{reset}
use h2_server.LoadBalancer.Accept.{Server}
use h2_server.LoadBalancer.Accept.Delivery.{IsSound, socket, Settled}
use h2_server.Options.{Parsed, ConfigOption, make}
use h2_server.Options.Last.{said, last_some, threads, make-last}
use h2_server.Epoll.{listens}
use h2_server.Serve.{
  Wait, undefined, served, of_server, is_runnable, start, Network, startup_on, behind_startup,
  listen_and_serve, main_with, main,
}
use h2_server.Serve.Loop.{arrived, accept_loop-Served, new_server-some, start-begin}

-- The number of threads is a byte.
said_byte : (o : Option ℕ) → said (λ word. word % 2 ^ 8) 1 o < 2 ^ 8
said_byte none = omega arith
said_byte (some word) = omega arith

threads_byte : (options : List Parsed) → (make options).num_threads < 2 ^ 8
threads_byte options =
    subst (λ (n : ℕ). n < 2 ^ 8) (sym (make-last options).1) (said_byte (last_some threads options))

start-zero : (waits : List Wait) (s : Server) → start 0 waits s ≡ none
unfolding start reset
start-zero waits s = refl

runs_with :
    {E : Type 0} (network : Network E) (is_regular_file : Bytes → Bool) (c : ConfigOption)
    (waits : List Wait) (s : Server)
    → c.is_help_mode ≡ false
    → is_runnable is_regular_file c.use_tls c.key_path c.cert_path ≡ true
    → main_with network is_regular_file c waits (some s)
      ≡ behind_startup (startup_on network) c.num_threads waits s
unfolding main_with listen_and_serve
runs_with network is_regular_file c waits s no_help all_there =
    rw (no_help, all_there, main_with, listen_and_serve) refl

module _ {E : Type 0} (network : Network E) (is_regular_file : Bytes → Bool) (options : List Parsed)
    (waits : List Wait) (not_help : (make options).is_help_mode ≡ false)
    (runnable : is_runnable is_regular_file
        (make options).use_tls
        (make options).key_path
        (make options).cert_path
      ≡ true)
    (sock : ℕ) (epoll : E) (started : startup_on network ≡ listens sock epoll) where
  main_runnable :
      (table : List ℕ) × (length table ≡ 1024)
      × (main network is_regular_file options waits
          ≡ of_server (
              start
                (make options).num_threads
                waits
                (record { indirect_table = table; workers = []; fates = [] })))
  unfolding main behind_startup
  main_runnable =
      let (table, size, e) = new_server-some in
      (
        table,
        size,
        ap (main_with network is_regular_file (make options) waits) e
            ∙ runs_with network is_regular_file (make options) waits
                (record { indirect_table = table; workers = []; fates = [] }) not_help runnable
            ∙ rw (started, behind_startup) refl,
      )

  -- A command line that does not ask for help, and whose key and certificate are there if TLS is used, and a
  -- `startup` that ends with a listening socket: with at least one thread, the program serves, whatever
  -- `epoll_wait`, `accept4` and the workers do.
  -- It makes no access out of range, and leaves a sound server with as many workers as the options say,
  -- and every socket that was accepted, in order, is queued for one of them or closed on the balancer's
  -- -1.
  pub main-Serves :
      (make options).num_threads ≢ 0
      → (server : Server) × (main network is_regular_file options waits ≡ served server)
        × IsSound server
        × (length server.workers ≡ (make options).num_threads)
        × (map socket server.fates ≡ arrived waits)
        × All (Settled (make options).num_threads) server.fates
  unfolding of_server
  main-Serves some_thread =
      let (table, size, runs) = main_runnable in
      let (s, sound, as_many, empty, begins) =
        start-begin (make options).num_threads waits table some_thread (threads_byte options)
          size in
      let r = accept_loop-Served waits s sound in
      let log : r.after.fates ≡ r.news = r.logged ∙ ap (λ l. l ++ r.news) empty in
      (
        r.after,
        runs ∙ ap of_server (begins ∙ r.returns),
        r.sound,
        r.as_many ∙ as_many,
        ap (map socket) log ∙ r.every_socket,
        subst (All (Settled (make options).num_threads)) (sym log)
            (subst (λ (n : ℕ). All (Settled n) r.news) as_many r.settled),
      )

  -- On a command line that does not ask for help, and whose key and certificate are there if TLS is
  -- used, and behind a `startup` that ends with a listening socket, a number of threads that is a multiple
  -- of 256 ends in undefined behaviour: the balancer divides by zero.
  pub main-zero_threads :
      (word : ℕ)
      → last_some threads options ≡ some word
      → word % 2 ^ 8 ≡ 0
      → main network is_regular_file options waits ≡ undefined
  unfolding of_server
  main-zero_threads word last none_left =
      let (table, size, runs) = main_runnable in
      let no_thread : (make options).num_threads ≡ 0 =
        (make-last options).1 ∙ ap (said (λ word. word % 2 ^ 8) 1) last ∙ none_left in
      runs
      ∙ ap
          (λ (n : ℕ).
            of_server (start n waits (record { indirect_table = table; workers = []; fates = [] })))
          no_thread
      ∙ ap of_server (start-zero waits _)
