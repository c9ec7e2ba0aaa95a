-- ===== src/Notify.antt =====
-- How a worker is woken: `Worker::enqueue_sock`, which the acceptor calls, and in the worker
-- `Worker::startup`, the signal branch of `Worker::run` and the loop of `handle_new_connections`
-- (src/worker.cc). A turn of a thread is one access to what the two share: the queue, the flag
-- `pending_notify`, and the counter of the eventfd. A schedule is any sequence of turns. The queue
-- is the bounded list that the ring implements; what becomes of a dequeued socket, and the events
-- of client sockets, are left out here: they touch none of the three.
pub mod Wakeup
pub mod Startup
mod Tests
use h2_server.Prelude.{ℕ, ◌+◌, Bool, true, false, List, [], ◌∷◌, ◌++◌, if◌then◌else◌, ◌==◌, length}

-- What `write` on the eventfd gives the acceptor: the signal is counted, EINTR, another error.
pub data WriteResult : Type 0 where
  written interrupted failed : WriteResult

pub data Turn : Type 0 where
  acceptor : ℕ → WriteResult → Turn
  worker : Turn

-- Where the acceptor stands in `enqueue_sock`: before it, before the compare-exchange, and in the
-- loop that writes the signal.
pub data Acceptor : Type 0 where
  idle claiming signalling : Acceptor

-- Where the worker stands: before `startup`, in `epoll_wait`, reading the eventfd, in
-- `handle_new_connections`, before the store to the flag, before the test of the queue, and before
-- its own compare-exchange.
pub data Worker : Type 0 where
  starting polling flushing draining clearing testing reclaiming : Worker

pub record System : Type 0 where
  pub queue : List ℕ
  pub pending_notify : Bool
  pub signals : ℕ
  pub signal_fd : Bool
  pub at_acceptor : Acceptor
  pub at_worker : Worker
  pub handled : List ℕ

-- `epoll_wait` reports the eventfd while its counter is positive, and a read resets the counter.
unfoldable pub worker_step : Worker → System → System
worker_step starting s = record s { signal_fd = true; at_worker = polling }
worker_step polling s = if s.signals == 0 then s else record s { at_worker = flushing }
worker_step flushing s =
    if s.signals == 0 then record s { at_worker = draining } else record s { signals = 0 }
worker_step draining s = elim (s.queue) [
  | [] ↦ record s { at_worker = clearing }
  | sock ∷ rest ↦ record s { queue = rest; handled = s.handled ++ sock ∷ [] }
]
worker_step clearing s = record s { pending_notify = false; at_worker = testing }
worker_step testing s = elim (s.queue) [
  | [] ↦ record s { at_worker = polling }
  | sock ∷ rest ↦ record s { at_worker = reclaiming }
]
worker_step reclaiming s =
    if s.pending_notify
    then record s { at_worker = polling }
    else record s { pending_notify = true; at_worker = flushing }

-- The queue holds at most `limit` sockets.
module _ (limit : ℕ) where
  unfoldable pub acceptor_step : ℕ → WriteResult → Acceptor → System → System
  acceptor_step sock result idle s =
      if length s.queue == limit
      then s
      else record s { queue = s.queue ++ sock ∷ []; at_acceptor = claiming }
  acceptor_step sock result claiming s =
      if s.pending_notify
      then record s { at_acceptor = idle }
      else record s { pending_notify = true; at_acceptor = signalling }
  acceptor_step sock written signalling s =
      if s.signal_fd
      then record s { signals = s.signals + 1; at_acceptor = idle }
      else record s { at_acceptor = idle }
  acceptor_step sock interrupted signalling s =
      if s.signal_fd then s else record s { at_acceptor = idle }
  acceptor_step sock failed signalling s = record s { at_acceptor = idle }

  unfoldable pub step : Turn → System → System
  unfolding acceptor_step worker_step
  step (acceptor sock result) s = acceptor_step sock result s.at_acceptor s
  step worker s = worker_step s.at_worker s

  unfoldable pub run : List Turn → System → System
  run [] s = s
  run (turn ∷ turns) s = run turns (step turn s)

-- A worker as `Worker::Worker` makes it, and the same behind `startup`.
abbrev pub made : System
made = record {
  queue = [];
  pending_notify = false;
  signals = 0;
  signal_fd = false;
  at_acceptor = idle;
  at_worker = starting;
  handled = [];
}

abbrev pub started : System
started = record {
  queue = [];
  pending_notify = false;
  signals = 0;
  signal_fd = true;
  at_acceptor = idle;
  at_worker = polling;
  handled = [];
}

-- No write to the eventfd fails in the schedule but for an interrupt.
abbrev pub WritesSucceed : List Turn → Type 0
WritesSucceed [] = Unit
WritesSucceed (acceptor sock failed ∷ turns) = ⊥
WritesSucceed (acceptor sock result ∷ turns) = WritesSucceed turns
WritesSucceed (worker ∷ turns) = WritesSucceed turns
