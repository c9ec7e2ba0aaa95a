-- ===== src/LoadBalancer/Accept.antt =====
-- `Server::handle_accept` (src/server.cc): accepted sockets go to the queues of the workers.
pub mod Delivery
use h2_server.Prelude.{
  ℕ, Bool, true, false, Option, none, some, List, [], ◌∷◌, ◌++◌, get_elem?, set, if◌then◌else◌,
}
use h2_server.CircularQueue.{CircularQueue}
use h2_server.CircularQueue as Queue
use h2_server.LoadBalancer.{Found, found, all_full, negative, acquire_worker_index}

-- What happens next in the loop: `accept4` gives a socket, EINTR or another error, or the worker of
-- that index takes a socket off its queue, which is placed
-- between two rounds of the loop.
pub data Event : Type 0 where
  connected : ℕ → Event
  interrupted : Event
  exhausted : Event
  popped : ℕ → Event

-- What became of an accepted socket: queued for the worker, closed because every worker is full, or
-- closed because the chosen queue turned out to be full.
pub data Fate : Type 0 where
  queued : ℕ → ℕ → Fate
  refused : ℕ → Fate
  dropped : ℕ → Fate

pub record Server : Type 0 where
  pub indirect_table : List ℕ
  pub workers : List (CircularQueue ℕ)
  pub fates : List Fate

-- One accepted socket; `none` is an access out of range.
unfoldable pub dispatch : ℕ → Server → Option Server
dispatch clnt_sock server =
    elim (acquire_worker_index server.workers server.indirect_table clnt_sock) [
      | none ↦ none
      | some (table, all_full) ↦
          some (record server {
            indirect_table = table;
            fates = server.fates ++ refused clnt_sock ∷ [];
          })
      | some (table, negative n) ↦
          some (record server {
            indirect_table = table;
            fates = server.fates ++ refused clnt_sock ∷ [];
          })
      | some (table, found index) ↦ elim (get_elem? server.workers index) [
        | none ↦ none
        | some queue ↦
            let (queue', accepted) = Queue.push queue clnt_sock in
            if accepted
            then some (record server {
              indirect_table = table;
              workers = set server.workers index queue';
              fates = server.fates ++ queued index clnt_sock ∷ [];
            })
            else some (record server {
              indirect_table = table;
              fates = server.fates ++ dropped clnt_sock ∷ [];
            })
      ]
    ]

unfoldable pub take_one : ℕ → Server → Server
take_one index server = elim (get_elem? server.workers index) [
  | none ↦ server
  | some queue ↦ record server { workers = set server.workers index (Queue.pop queue).0 }
]

-- The loop ends with an error other than EINTR, or is still running where the events end.
unfoldable pub handle_accept : List Event → Server → Option Server
unfolding dispatch take_one
handle_accept [] server = some server
handle_accept (connected clnt_sock ∷ events) server = elim (dispatch clnt_sock server) [
  | none ↦ none
  | some server' ↦ handle_accept events server'
]
handle_accept (interrupted ∷ events) server = handle_accept events server
handle_accept (exhausted ∷ events) server = some server
handle_accept (popped index ∷ events) server = handle_accept events (take_one index server)
