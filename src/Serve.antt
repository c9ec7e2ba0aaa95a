-- ===== src/Serve.antt =====
-- The start of the program and its outer loop: `main` of src/main.cc, and `is_runnable`, `spawn_workers`
-- and `listen_and_serve` of src/server.cc. The routes are in `Main`; the listening socket, epoll and the
-- threads are the kernel's. `startup` is that of Epoll.
pub mod Loop
pub mod Start
mod Tests
use h2_server.Prelude.{
  ℕ, Bytes, Bool, true, false, ◌&&◌, Option, none, some, List, [], ◌∷◌, replicate, if◌then◌else◌,
}
use h2_server.CircularQueue as Queue
use h2_server.LoadBalancer as Balancer
use h2_server.LoadBalancer.{reset}
use h2_server.LoadBalancer.Accept.{Event, Server, handle_accept}
use h2_server.Epoll.{Epoll, startup, Startup, exits, listens}
use h2_server.Options.{Parsed, ConfigOption, make}

-- What `epoll_wait` brings: connections, with what `accept4` gives for them and what the workers take
-- meanwhile; EINTR; or another error.
pub data Wait : Type 0 where
  woken : List Event → Wait
  wait_interrupted wait_failed : Wait

-- The usage is all; a file is missing; the process exits with a status; undefined behaviour; or a server, at
-- the end of the waits.
pub data Run : Type 0 where
  helped : Run
  refused_files : Run
  exited : ℕ → Run
  undefined : Run
  served : Server → Run

unfoldable pub of_server : Option Server → Run
of_server none = undefined
of_server (some server) = served server

-- `is_regular_file` says which paths are regular files.
module _ (is_regular_file : Bytes → Bool) where
  unfoldable pub file_exists : Bytes → Bool
  file_exists [] = false
  file_exists (c ∷ filename) = is_regular_file (c ∷ filename)

  unfoldable pub is_runnable : Bool → Bytes → Bytes → Bool
  unfolding file_exists
  is_runnable use_tls key_path cert_path =
      if use_tls then (if file_exists key_path then file_exists cert_path else false) else true

-- The workers, each with its queue; the threads run them.
unfoldable pub spawn_workers : ℕ → Server → Server
unfolding Queue.make
spawn_workers num_threads server = record server {
  workers = replicate num_threads (Queue.make 0 4096);
}

-- The loop ends with an error other than EINTR, or is still waiting where the waits end.
unfoldable pub accept_loop : List Wait → Server → Option Server
unfolding handle_accept
accept_loop [] server = some server
accept_loop (wait_interrupted ∷ waits) server = accept_loop waits server
accept_loop (wait_failed ∷ waits) server = some server
accept_loop (woken events ∷ waits) server = elim (handle_accept events server) [
  | none ↦ none
  | some server' ↦ accept_loop waits server'
]

-- The constructor of `Server`; its balancer has a table of 1024 entries for one worker.
unfoldable pub new_server : Option Server
unfolding Balancer.make
new_server = elim (Balancer.make 1 1024) [
  | none ↦ none
  | some table ↦ some (record { indirect_table = table; workers = []; fates = [] })
]

-- Behind `startup`.
unfoldable pub start : ℕ → List Wait → Server → Option Server
unfolding reset spawn_workers accept_loop
start num_threads waits server = elim (reset num_threads server.indirect_table) [
  | none ↦ none
  | some table ↦
      accept_loop waits (spawn_workers num_threads (record server { indirect_table = table }))
]

-- What `startup` ends in, with the rest of `listen_and_serve`.
unfoldable pub behind_startup : {E : Type 0} → Startup E → ℕ → List Wait → Server → Run
unfolding start of_server
behind_startup (exits status) num_threads waits server = exited status
behind_startup (listens sock epoll) num_threads waits server =
    of_server (start num_threads waits server)

-- What the calls of `startup` give: `socket`, `bind`, `listen` and `epoll_create`.
pub record Network (E : Type 0) : Type 0 where
  pub epoll : Epoll E
  pub socket : Option ℕ
  pub is_bound : Bool
  pub is_listening : ℕ → Bool
  pub created : Option (ℕ × E)

unfoldable pub startup_on : {E : Type 0} → Network E → Startup E
unfolding startup
startup_on network =
    startup network.epoll network.socket network.is_bound network.is_listening network.created

module _ {E : Type 0} (network : Network E) (is_regular_file : Bytes → Bool) where
  unfoldable pub listen_and_serve : ℕ → Bool → Bytes → Bytes → List Wait → Server → Run
  unfolding is_runnable behind_startup startup_on
  listen_and_serve num_threads use_tls key_path cert_path waits server =
      if is_runnable is_regular_file use_tls key_path cert_path
      then behind_startup (startup_on network) num_threads waits server
      else refused_files

  -- `main` behind the constructors.
  unfoldable pub main_with : ConfigOption → List Wait → Option Server → Run
  unfolding listen_and_serve
  main_with c waits none = undefined
  main_with c waits (some server) =
      if c.is_help_mode
      then helped
      else listen_and_serve c.num_threads c.use_tls c.key_path c.cert_path waits server

  unfoldable pub main : List Parsed → List Wait → Run
  unfolding make new_server main_with
  main options waits = main_with (make options) waits new_server
