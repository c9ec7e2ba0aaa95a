-- ===== src/System.antt =====
-- The server while it runs: the acceptor thread (`Server::handle_accept` of src/server.cc) and the worker
-- threads (`Worker::run` of src/worker.cc) with the queues between them, as one state. A step is a round
-- of one thread's loop; steps of different threads come in any order. The accesses of one round to the
-- queue are interleaved with the other thread's in CircularQueue/Threads.
pub mod Placed
pub mod Accepts
pub mod Arrives
pub mod Steps
pub mod Runs
pub mod Start
mod Tests
use h2_server.Prelude.{ℕ, Bool, Option, none, some, List, [], ◌∷◌, get_elem?, set, replicate}
use h2_server.LoadBalancer.Accept.{Server, dispatch}
use h2_server.LoadBalancer.{reset}
use h2_server.Serve.{new_server, spawn_workers}
use h2_server.Events.{Worker, Results, no_traffic}
use h2_server.Events.Arrivals.{accept_one}
use h2_server.Events.Handshake.{Opening, Event, socket_event, handle}

-- The workers of the server are their queues; `sessions` is the rest of each.
pub record System : Type 0 where
  pub server : Server
  pub sessions : List Worker

-- `accept4` gives a socket; the worker of an index takes a round of `handle_new_connections`; or epoll
-- brings it an event of a client's socket.
pub data Action : Type 0 where
  accepts : ℕ → Action
  takes_one : ℕ → Opening → Action
  client : ℕ → ℕ → ℕ → Results → Opening → Action

-- A worker before its first event.
abbrev pub new_worker : Bool → Worker
new_worker use_tls = record {
  use_tls = use_tls;
  session_map = λ sock. none;
  interest = λ sock. none;
  closed = [];
  traffic = λ sock. no_traffic;
}

-- A round of the worker with this index; `none` where there is no such worker.
unfoldable pub take_round : ℕ → Opening → System → Option System
unfolding accept_one
take_round index opening sys = elim (get_elem? sys.server.workers index) [
  | none ↦ none
  | some queue ↦ elim (get_elem? sys.sessions index) [
    | none ↦ none
    | some w ↦ elim (accept_one opening queue w) [
      | none ↦ none
      | some (again, queue', w') ↦ some (record sys {
        server = record sys.server { workers = set sys.server.workers index queue' };
        sessions = set sys.sessions index w';
      })
    ]
  ]
]

unfoldable pub client_event : ℕ → Event → System → Option System
unfolding handle
client_event index event sys = elim (get_elem? sys.sessions index) [
  | none ↦ none
  | some w ↦ elim (handle event w) [
    | none ↦ none
    | some w' ↦ some (record sys { sessions = set sys.sessions index w' })
  ]
]

unfoldable pub step : Action → System → Option System
unfolding dispatch take_round client_event
step (accepts clnt_sock) sys = elim (dispatch clnt_sock sys.server) [
  | none ↦ none
  | some server' ↦ some (record sys { server = server' })
]
step (takes_one index opening) sys = take_round index opening sys
step (client index sock ev results opening) sys =
    client_event index (socket_event sock ev results opening) sys

unfoldable pub run : List Action → System → Option System
unfolding step
run [] sys = some sys
run (action ∷ actions) sys = elim (step action sys) [ none ↦ none | some sys' ↦ run actions sys' ]

-- `Server::Server` and `spawn_workers`: the balancer is reset, and the workers are made.
unfoldable pub begun : Bool → ℕ → Option System
begun use_tls num_threads = elim new_server [
  | none ↦ none
  | some server ↦ elim (reset num_threads server.indirect_table) [
    | none ↦ none
    | some table ↦ some (record {
      server = spawn_workers num_threads (record server { indirect_table = table });
      sessions = replicate num_threads (new_worker use_tls);
    })
  ]
]

unfoldable pub execute : Bool → ℕ → List Action → Option System
execute use_tls num_threads actions = elim (begun use_tls num_threads) [
  | none ↦ none
  | some sys ↦ run actions sys
]
