-- ===== src/LoadBalancer/Tests.antt =====
-- The theorems on the load balancer at concrete tables and queues.
use h2_server.Prelude.{ℕ, refl, List, [], ◌∷◌, arith}
use h2_server.CircularQueue.{CircularQueue}
use h2_server.CircularQueue.Refine.{IsValid}
use h2_server.LoadBalancer.{find_available_worker}
use h2_server.LoadBalancer.Round.{Nearest, find_available_worker-Nearest}
use h2_server.LoadBalancer.Accept.{
  Event, connected, interrupted, exhausted, popped, Server, handle_accept,
}
use h2_server.LoadBalancer.Accept.Delivery.{IsSound, Delivered, handle_accept-Delivered}

-- A queue with room for one socket, and the same when it is full.
abbrev open_queue : CircularQueue ℕ
open_queue = record { buffer = 0 ∷ 0 ∷ []; capacity = 2; head = 0; tail = 0 }

abbrev full_queue : CircularQueue ℕ
full_queue = record { buffer = 7 ∷ 0 ∷ []; capacity = 2; head = 0; tail = 1 }

abbrev three_workers : List (CircularQueue ℕ)
three_workers = full_queue ∷ full_queue ∷ open_queue ∷ []

find_available_worker-Nearest_example :
    Nearest three_workers 0 (find_available_worker three_workers 0)
find_available_worker-Nearest_example =
    find_available_worker-Nearest three_workers 0 (omega arith) (omega arith)

abbrev one_open : Server
one_open = record {
  indirect_table = 0 ∷ 1 ∷ [];
  workers = full_queue ∷ open_queue ∷ [];
  fates = [];
}

full_queue-IsValid : IsValid full_queue
full_queue-IsValid = record {
  exponent = 1;
  small = omega arith;
  power = refl;
  storage = refl;
  head_in = omega arith;
  tail_in = omega arith;
}

open_queue-IsValid : IsValid open_queue
open_queue-IsValid = record {
  exponent = 1;
  small = omega arith;
  power = refl;
  storage = refl;
  head_in = omega arith;
  tail_in = omega arith;
}

one_open-IsSound : IsSound one_open
one_open-IsSound = record {
  slots = omega arith;
  few = omega arith;
  names = (omega arith, (omega arith, tt));
  queues = (full_queue-IsValid, (open_queue-IsValid, tt));
}

abbrev arrivals : List Event
arrivals = connected 8 ∷ interrupted ∷ connected 10 ∷ popped 0 ∷ connected 12 ∷ exhausted ∷ []

handle_accept-Delivered_example : Delivered arrivals one_open (handle_accept arrivals one_open)
handle_accept-Delivered_example = handle_accept-Delivered arrivals one_open one_open-IsSound
