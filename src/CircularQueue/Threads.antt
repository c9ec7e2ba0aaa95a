-- ===== src/CircularQueue/Threads.antt =====
-- The queue between its two threads: the acceptor in `push` (src/circular_queue.h, called from
-- `Worker::enqueue_sock`) and the worker in `Worker::dequeue_sock` (src/worker.cc), which calls
-- `is_empty`, `front` and `pop`. A turn of a thread is one access to shared memory, with the local
-- steps that follow it, and a schedule is any sequence of turns. The accesses are sequentially
-- consistent here: the acquire and release pairs of the code order them so for these two threads.
pub mod Facts
pub mod Invariant
use h2_server.Prelude.{ℕ, ◌%◌, ◌^◌, List, [], ◌∷◌, ◌++◌, if◌then◌else◌, ◌==◌, set, get_or}
use h2_server.CircularQueue.{CircularQueue, next}

-- Where the acceptor stands in `push`, with its locals.
pub data Producer (A : Type 0) : Type 0 where
  idle : Producer A
  loaded : ℕ → A → Producer A
  writing : ℕ → ℕ → A → Producer A
  storing : ℕ → A → Producer A

-- Where the worker stands in `dequeue_sock`, with its locals. `aborted` is the failed assertion of
-- `front`.
pub data Consumer (A : Type 0) : Type 0 where
  waiting : Consumer A
  testing : ℕ → Consumer A
  asserting : Consumer A
  asserting_tail : ℕ → Consumer A
  reading : Consumer A
  popping : A → Consumer A
  popping_tail : ℕ → A → Consumer A
  advancing : ℕ → A → Consumer A
  aborted : Consumer A

-- `sent` and `received` record the completed calls: the elements that `push` accepted, and those
-- that `dequeue_sock` returned.
pub record System (A : Type 0) : Type 0 where
  pub queue : CircularQueue A
  pub producer : Producer A
  pub consumer : Consumer A
  pub sent : List A
  pub received : List A

pub data Turn (A : Type 0) : Type 0 where
  produce : A → Turn A
  consume : Turn A

module _ {A : Type 0} (blank : A) where
  -- The next access of `push`; an idle acceptor begins to push `item`.
  unfoldable pub produce_step : A → Producer A → System A → System A
  produce_step item idle s = record s { producer = loaded s.queue.tail item }
  produce_step item (loaded t x) s =
      let next_t = next s.queue.capacity t % 2 ^ 32 in
      record s { producer = if next_t == s.queue.head then idle else writing t next_t x }
  produce_step item (writing t next_t x) s = record s {
    queue = record (s.queue) { buffer = set s.queue.buffer t x };
    producer = storing next_t x;
  }
  produce_step item (storing next_t x) s = record s {
    queue = record (s.queue) { tail = next_t };
    producer = idle;
    sent = s.sent ++ x ∷ [];
  }

  -- The next access of `dequeue_sock`.
  unfoldable pub consume_step : Consumer A → System A → System A
  consume_step waiting s = record s { consumer = testing s.queue.head }
  consume_step (testing h) s = record s {
    consumer = if h == s.queue.tail then waiting else asserting;
  }
  consume_step asserting s = record s { consumer = asserting_tail s.queue.head }
  consume_step (asserting_tail h) s = record s {
    consumer = if h == s.queue.tail then aborted else reading;
  }
  consume_step reading s = record s {
    consumer = popping (get_or s.queue.buffer s.queue.head blank);
  }
  consume_step (popping v) s = record s { consumer = popping_tail s.queue.head v }
  consume_step (popping_tail h v) s =
      if h == s.queue.tail
      then record s { consumer = waiting; received = s.received ++ v ∷ [] }
      else record s { consumer = advancing (next s.queue.capacity h % 2 ^ 32) v }
  consume_step (advancing next_h v) s = record s {
    queue = record (s.queue) { head = next_h };
    consumer = waiting;
    received = s.received ++ v ∷ [];
  }
  consume_step aborted s = s

  unfoldable pub step : Turn A → System A → System A
  unfolding produce_step consume_step
  step (produce item) s = produce_step item s.producer s
  step consume s = consume_step s.consumer s

  unfoldable pub run : List (Turn A) → System A → System A
  run [] s = s
  run (turn ∷ turns) s = run turns (step turn s)

  -- Both threads at rest at a queue that neither has used.
  abbrev pub start : CircularQueue A → System A
  start q = record { queue = q; producer = idle; consumer = waiting; sent = []; received = [] }
