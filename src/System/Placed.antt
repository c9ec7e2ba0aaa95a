-- ===== src/System/Placed.antt =====
-- Where the sockets are.
use h2_server.Prelude.{
  true, ℕ, ◌+◌, ◌≤◌, ◌<◌, ◌≡◌, refl, ap, Option, some, List, [], ◌∷◌, ◌++◌, length, total, All,
}
use h2_server.CircularQueue.{CircularQueue}
use h2_server.CircularQueue.Refine.{contents}
use h2_server.LoadBalancer.Accept.{Server, Fate, queued, refused, dropped}
use h2_server.LoadBalancer.Accept.Delivery.{IsSound}
use h2_server.Connection.{IsSent}
use h2_server.Events.{Worker}
use h2_server.Events.Flow.{Flows}
use h2_server.Events.Sessions.{Sound, times, one_if}
use h2_server.System.{System, Action, accepts, takes_one, client}

abbrev pub closed_by : List Fate → List ℕ
closed_by [] = []
closed_by (queued index sock ∷ fates) = closed_by fates
closed_by (refused sock ∷ fates) = sock ∷ closed_by fates
closed_by (dropped sock ∷ fates) = sock ∷ closed_by fates

pub closed_by-append : (xs ys : List Fate) → closed_by (xs ++ ys) ≡ closed_by xs ++ closed_by ys
closed_by-append [] ys = refl
closed_by-append (queued index sock ∷ xs) ys = closed_by-append xs ys
closed_by-append (refused sock ∷ xs) ys = ap (◌∷◌ sock) (closed_by-append xs ys)
closed_by-append (dropped sock ∷ xs) ys = ap (◌∷◌ sock) (closed_by-append xs ys)

-- How often a socket is in a queue, has a session, and has been closed by a worker.
abbrev pub in_queue : ℕ → CircularQueue ℕ → ℕ
in_queue sock queue = times sock (contents 0 queue)

abbrev pub in_session : ℕ → Worker → ℕ
in_session sock w = one_if (w.session_map sock)

abbrev pub closed_in : ℕ → Worker → ℕ
closed_in sock w = times sock w.closed

abbrev pub queues : ℕ → Server → ℕ
queues sock server = total (in_queue sock) server.workers

-- The places in which an open socket is.
unfoldable pub places : ℕ → System → ℕ
places sock sys = queues sock sys.server + total (in_session sock) sys.sessions

-- How often a socket has been closed.
unfoldable pub closes : ℕ → System → ℕ
closes sock sys = total (closed_in sock) sys.sessions + times sock (closed_by sys.server.fates)

-- The server is sound, and has a sound worker for each queue, whose bytes balance; no socket is in two
-- places.
pub record IsPlaced (sys : System) : Type 0 where
  pub server : IsSound sys.server
  pub as_many : length sys.sessions ≡ length sys.server.workers
  pub workers : All Sound sys.sessions
  pub flows : All Flows sys.sessions
  pub single : (sock : ℕ) → places sock sys ≤ 1

-- The kernel gives a descriptor that is not open, the worker is there, `SSL_new` gives an object, and
-- `nghttp2_session_mem_send2` gives no negative result.
abbrev pub Happens : Action → System → Type 0
Happens (accepts sock) sys = places sock sys ≡ 0
Happens (takes_one index opening) sys = (index < length sys.sessions) × (opening.ssl_made ≡ true)
Happens (client index sock ev results opening) sys =
    (index < length sys.sessions) × All IsSent results.chunks

abbrev pub accepted_by : List Action → List ℕ
accepted_by [] = []
accepted_by (accepts sock ∷ actions) = sock ∷ accepted_by actions
accepted_by (_ ∷ actions) = accepted_by actions

-- What a step leaves: the invariant, and every socket accounted for.
abbrev pub Steps : Action → System → Option System → Type 0
Steps action sys o =
    (sys' : System) × (o ≡ some sys')
    × IsPlaced sys'
    × ((sock : ℕ)
        → places sock sys' + closes sock sys'
          ≡ places sock sys + closes sock sys + times sock (accepted_by (action ∷ [])))
