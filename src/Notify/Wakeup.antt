-- ===== src/Notify/Wakeup.antt =====
-- No wakeup is lost once the worker has started, and a woken worker empties the queue.
use h2_server.Prelude.{◌≡◌, ◌≢◌, ◌⊎◌, true, false, Bool, []}
use h2_server.Notify.{claiming, signalling, Worker, starting, polling, testing, reclaiming, System}

-- The worker is going to look at the eventfd with no further look at the queue, or may be.
abbrev resting : Worker → Bool
resting polling = true
resting testing = true
resting reclaiming = true
resting _ = false

-- A raised flag stands for a signal that is counted or about to be, and while the worker polls, a
-- lowered flag for an empty queue or an acceptor that has yet to raise it.
record Inv (s : System) : Type 0 where
  ready : s.signal_fd ≡ true
  begun : s.at_worker ≢ starting
  raised :
      resting s.at_worker ≡ true
      → s.pending_notify ≡ true
      → (s.signals ≢ 0) ⊎ (s.at_acceptor ≡ signalling)
  lowered :
      s.at_worker ≡ polling → s.pending_notify ≡ false → (s.queue ≡ []) ⊎ (s.at_acceptor ≡ claiming)
