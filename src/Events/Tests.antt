-- ===== src/Events/Tests.antt =====
-- A worker without TLS that takes a socket, reads from it, and is told to close it.
use h2_server.Prelude.{
  ℕ, ◌+◌, ◌≡◌, refl, bytes, Bool, true, false, arith, none, some, List, [], ◌∷◌,
}
use h2_server.Connection.{
  SessionData, tls_handshaking, established, received, processed, sends, takes, epollin,
}
use h2_server.Events.{Worker, no_traffic, Wants, Results}
use h2_server.Events.Handshake.{
  accepted, new_session, handle_tls_handshake, handle_new_connection, accept_failed, Opening, Event,
  new_socket, socket_event, handle, handle_all,
}
use h2_server.Events.Sessions.{Sound, times, accounted}
use h2_server.Events.Negotiated.{tls-established_h2}
use h2_server.CircularQueue.{CircularQueue}
use h2_server.CircularQueue.Refine.{IsValid}
use h2_server.Events.Arrivals.{handle_new_connections, Drained, handle_new_connections-Drained}
use h2_server.Events.Flow.{Flows}
use h2_server.Events.Flow.Runs.{handle_all-Flows}
use h2_server.Events.Runs.{handle_all-Keeps}

abbrev started : Worker
started = record {
  use_tls = false;
  session_map = λ sock. none;
  interest = λ sock. none;
  closed = [];
  traffic = λ sock. no_traffic;
}

abbrev reading : Wants
reading = record { read = true; write = false; ssl_read = true; ssl_write = false }

abbrev opening : Opening
opening = record {
  initialised = true;
  ssl_made = true;
  accept = accept_failed;
  settings_submitted = true;
  wants = record reading { write = true };
}

abbrev results : Bool → Results
results goaway = record {
  reads = received (bytes "ping") ∷ [];
  ssl_reads = [];
  feeds = processed 4 ∷ [];
  goaway = goaway;
  wants = record reading { write = true };
  chunks = sends (bytes "pong") ∷ [];
  writes = takes 4 ∷ [];
  ssl_writes = [];
  wants_behind = reading;
}

abbrev events : List Event
events =
    new_socket 7 opening
    ∷ socket_event 7 epollin (results false) opening
    ∷ new_socket 8 opening
    ∷ socket_event 7 epollin (results true) opening
    ∷ []

started-Sound : Sound started
unfolding Sound
started-Sound sock = refl

handle_all-Keeps_example :
    (w' : Worker) × (handle_all events started ≡ some w')
    × Sound w'
    × ((sock : ℕ) → accounted sock w' ≡ 0 + times sock (7 ∷ 8 ∷ []))
unfolding handle
handle_all-Keeps_example =
    handle_all-Keeps events started started-Sound
      ((refl, refl), ((tt, tt), ((refl, refl), ((tt, tt), tt))))

abbrev tls_worker : Worker
tls_worker = record started { use_tls = true }

abbrev tls_opening : Opening
tls_opening = record opening { accept = accepted (some (bytes "h2")) }

abbrev shaking : SessionData
shaking = record new_session { events = epollin; state = tls_handshaking }

tls-established_h2_example :
    ((s' : SessionData)
      → (handle_tls_handshake 7 tls_opening shaking tls_worker).session_map 7 ≡ some s'
      → s'.state ≡ established
      → tls_opening.accept ≡ accepted (some (bytes "h2")))
    × ((w' : Worker) (s' : SessionData)
        → handle_new_connection 7 tls_opening tls_worker ≡ some w'
        → w'.session_map 7 ≡ some s'
        → s'.state ≡ established
        → tls_opening.accept ≡ accepted (some (bytes "h2")))
tls-established_h2_example = tls-established_h2 7 tls_opening shaking tls_worker refl refl refl

started-Flows : Flows started
unfolding Flows
started-Flows sock = ([], [], (refl, refl))

handle_all-Flows_example : (w' : Worker) × (handle_all events started ≡ some w') × Flows w'
unfolding handle
handle_all-Flows_example =
    handle_all-Flows events started started-Sound
      ((refl, refl), ((tt, tt), ((refl, refl), ((tt, tt), tt)))) started-Flows

-- Sockets 8 and 9 are queued.
abbrev two_queued : CircularQueue ℕ
two_queued = record { buffer = 7 ∷ 8 ∷ 9 ∷ 0 ∷ []; capacity = 4; head = 1; tail = 3 }

two_queued-IsValid : IsValid two_queued
two_queued-IsValid = record {
  exponent = 2;
  small = omega arith;
  power = refl;
  storage = refl;
  head_in = omega arith;
  tail_in = omega arith;
}

handle_new_connections-Drained_example :
    Drained
      (new_socket 8 opening ∷ new_socket 9 opening ∷ [])
      started
      (handle_new_connections (opening ∷ opening ∷ []) two_queued started)
handle_new_connections-Drained_example =
    handle_new_connections-Drained (opening ∷ opening ∷ []) two_queued started two_queued-IsValid
      (omega arith) (refl, (refl, tt))
