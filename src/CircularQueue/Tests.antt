-- ===== src/CircularQueue/Tests.antt =====
-- The queue on concrete inputs.
use h2_server.Prelude.{
  ℕ, ◌-◌, ◌^◌, ◌≤◌, ◌≡◌, ◌≢◌, refl, true, false, some, List, [], ◌∷◌, ◌++◌, arith,
}
use h2_server.CircularQueue.Abstract.{AbstractQueue, BoundedList, view, queue_of, view-queue_of}
use h2_server.CircularQueue.{
  CircularQueue, make, round_to_pow2, next, push, pop, front, is_empty, is_full,
}
use h2_server.CircularQueue.Capacity.{dist, round_to_pow2_nearest}
use h2_server.CircularQueue.Fifo.{Op, flag, item, answers}
use h2_server.CircularQueue.Refine.{IsValid, contents, run, perform, run-make_refines}
use h2_server.CircularQueue.Threads
use h2_server.CircularQueue.Threads.{Turn, produce, consume, start, aborted}
use h2_server.CircularQueue.Threads.Invariant.{run_in_order}

abbrev script : List (Op ℕ)
script =
    Op.push 7
    ∷ Op.push 8
    ∷ Op.push 9
    ∷ Op.is_full
    ∷ Op.push 10
    ∷ Op.front
    ∷ Op.pop
    ∷ Op.pop
    ∷ Op.pop
    ∷ Op.pop
    ∷ Op.is_empty
    ∷ []

sizes :
    (round_to_pow2 1 ≡ 1)
    × (round_to_pow2 3 ≡ 2)
    × (round_to_pow2 7 ≡ 8)
    × (round_to_pow2 4096 ≡ 4096)
unfolding round_to_pow2
sizes = (refl, refl, refl, refl)

run_small :
    run (make 0 4) script
    ≡ flag true
      ∷ flag true
      ∷ flag true
      ∷ flag true
      ∷ flag false
      ∷ item (some 7)
      ∷ flag true
      ∷ flag true
      ∷ flag true
      ∷ flag false
      ∷ flag true
      ∷ []
unfolding run perform make push pop front is_empty is_full next round_to_pow2
run_small = refl

round_to_pow2_nearest_example :
    (k : ℕ) × (k ≤ 31)
    × (round_to_pow2 4096 ≡ 2 ^ k)
    × ((j : ℕ) → dist 4096 (round_to_pow2 4096) ≤ dist 4096 (2 ^ j))
round_to_pow2_nearest_example = round_to_pow2_nearest 4096 (omega arith) (omega arith)

run-make_refines_example : run (make 0 5) script ≡ answers (round_to_pow2 5 - 1) [] script
run-make_refines_example = run-make_refines 0 5 script (omega arith) (omega arith)

abbrev small_ring : CircularQueue ℕ
small_ring = record { buffer = 0 ∷ 0 ∷ []; capacity = 2; head = 1; tail = 1 }

small_ring-IsValid : IsValid small_ring
small_ring-IsValid = record {
  exponent = 1;
  small = omega arith;
  power = refl;
  storage = refl;
  head_in = omega arith;
  tail_in = omega arith;
}

-- The worker looks between the acceptor's two stores.
abbrev schedule : List (Turn ℕ)
schedule =
    produce 5
    ∷ produce 5
    ∷ produce 5
    ∷ consume
    ∷ consume
    ∷ produce 5
    ∷ consume
    ∷ consume
    ∷ consume
    ∷ consume
    ∷ produce 6
    ∷ consume
    ∷ produce 6
    ∷ consume
    ∷ consume
    ∷ consume
    ∷ []

schedule_delivers : (Threads.run 0 schedule (start 0 small_ring)).received ≡ 5 ∷ []
unfolding Threads.run Threads.step next
schedule_delivers = refl

run_in_order_example :
    let s = Threads.run 0 schedule (start 0 small_ring) in
    (s.sent ≡ s.received ++ contents 0 s.queue) × (s.consumer ≢ aborted) × IsValid s.queue
run_in_order_example = run_in_order 0 small_ring schedule small_ring-IsValid refl

view-queue_of_example :
    ((a : AbstractQueue 3) → queue_of 3 (omega arith) (view 3 a) ≡ a)
    × ((b : BoundedList 3) → view 3 (queue_of 3 (omega arith) b) ≡ b)
view-queue_of_example = view-queue_of 3 (omega arith)
