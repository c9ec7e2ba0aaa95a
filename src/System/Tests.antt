-- ===== src/System/Tests.antt =====
-- A server with two workers that accepts a socket, serves it and closes it.
use h2_server.Prelude.{ℕ, ◌+◌, ◌≤◌, ◌≡◌, refl, bytes, true, false, some, List, [], ◌∷◌, arith, All}
use h2_server.CircularQueue.{CircularQueue}
use h2_server.CircularQueue as Queue
use h2_server.LoadBalancer as Balancer
use h2_server.CircularQueue.Refine.{IsValid}
use h2_server.Connection.{sends, received, processed, takes, epollin}
use h2_server.LoadBalancer.{reset}
use h2_server.Serve.{new_server, spawn_workers}
use h2_server.Events.{Wants, Results}
use h2_server.Events.Handshake.{Opening, accept_failed}
use h2_server.Events.Flow.{Flows}
use h2_server.Events.Sessions.{Sound, times}
use h2_server.System.{
  System, Action, accepts, takes_one, client, new_worker, begun, step, run, execute,
}
use h2_server.System.Placed.{IsPlaced, places, closes}
use h2_server.System.Runs.{Then, AllHappen, run-IsPlaced}
use h2_server.System.Start.{execute-accounted}

abbrev reading : Wants
reading = record { read = true; write = false; ssl_read = true; ssl_write = false }

abbrev opening : Opening
opening = record {
  initialised = true;
  ssl_made = true;
  accept = accept_failed;
  settings_submitted = true;
  wants = reading;
}

abbrev results : Results
results = record {
  reads = received (bytes "ping") ∷ [];
  ssl_reads = [];
  feeds = processed 4 ∷ [];
  goaway = true;
  wants = reading;
  chunks = sends (bytes "pong") ∷ [];
  writes = takes 4 ∷ [];
  ssl_writes = [];
  wants_behind = reading;
}

abbrev actions : List Action
actions = accepts 7 ∷ accepts 9 ∷ takes_one 1 opening ∷ client 1 7 epollin results opening ∷ []

abbrev empty_queue : CircularQueue ℕ
empty_queue = record { buffer = 0 ∷ 0 ∷ 0 ∷ 0 ∷ []; capacity = 4; head = 0; tail = 0 }

abbrev two_workers : System
two_workers = record {
  server = record {
    indirect_table = 0 ∷ 1 ∷ [];
    workers = empty_queue ∷ empty_queue ∷ [];
    fates = [];
  };
  sessions = new_worker false ∷ new_worker false ∷ [];
}

empty_queue-IsValid : IsValid empty_queue
empty_queue-IsValid = record {
  exponent = 2;
  small = omega arith;
  power = refl;
  storage = refl;
  head_in = omega arith;
  tail_in = omega arith;
}

new_worker-Sound : Sound (new_worker false)
unfolding Sound
new_worker-Sound sock = refl

new_worker-Flows : Flows (new_worker false)
unfolding Flows
new_worker-Flows sock = ([], [], (refl, refl))

two_workers-IsPlaced : IsPlaced two_workers
unfolding places
two_workers-IsPlaced = record {
  server = record {
    slots = omega arith;
    few = omega arith;
    names = (omega arith, (omega arith, tt));
    queues = (empty_queue-IsValid, (empty_queue-IsValid, tt));
  };
  as_many = refl;
  workers = (new_worker-Sound, (new_worker-Sound, tt));
  flows = (new_worker-Flows, (new_worker-Flows, tt));
  single = λ sock. omega arith;
}

two_workers-happen : AllHappen actions two_workers
unfolding step places Balancer.acquire_worker_index Queue.is_full Queue.next Queue.push
    Queue.is_empty Queue.front
two_workers-happen = (refl, (refl, ((omega arith, refl), ((omega arith, (tt, tt)), tt))))

run-IsPlaced_example :
    (sys' : System) × (run actions two_workers ≡ some sys')
    × IsPlaced sys'
    × ((sock : ℕ)
        → places sock sys' + closes sock sys'
          ≡ places sock two_workers + closes sock two_workers + times sock (7 ∷ 9 ∷ []))
run-IsPlaced_example = run-IsPlaced actions two_workers two_workers-IsPlaced two_workers-happen

begun-happen : Then (begun false 2) (λ sys. AllHappen actions sys)
unfolding step places Balancer.acquire_worker_index Queue.is_full Queue.next Queue.push
    Queue.is_empty Queue.front begun new_server spawn_workers reset Queue.round_to_pow2
begun-happen = (refl, (refl, ((omega arith, refl), ((omega arith, (tt, tt)), tt))))

execute-accounted_example :
    (sys : System) × (execute false 2 actions ≡ some sys)
    × All Flows sys.sessions
    × ((sock : ℕ)
        → (places sock sys ≤ 1) × (places sock sys + closes sock sys ≡ times sock (7 ∷ 9 ∷ [])))
execute-accounted_example =
    execute-accounted false 2 actions (omega arith) (omega arith) begun-happen
