-- ===== src/Notify/Startup.antt =====
-- A socket that is queued before the worker has run `startup` is lost, with all that follow it: the
-- write goes to no eventfd, and the flag stays raised.
use h2_server.Prelude.{ℕ, ◌≡◌, ◌≢◌, ◌⊎◌, refl, true, false, List, [], ◌∷◌, arith, ◌==◌}
use h2_server.Notify.{
  WriteResult, written, interrupted, failed, Turn, acceptor, worker, Acceptor, idle, claiming,
  signalling, Worker, starting, polling, System, acceptor_step, worker_step, step, run, made,
}

-- The flag is up, no signal is counted or will be, and the worker is not up yet or asleep.
record IsDeaf (s : System) : Type 0 where
  raised : s.pending_notify ≡ true
  silent : s.signals ≡ 0
  quiet : (s.at_acceptor ≡ idle) ⊎ (s.at_acceptor ≡ claiming)
  asleep : (s.at_worker ≡ starting) ⊎ (s.at_worker ≡ polling)
  nothing : s.handled ≡ []

module _ (limit : ℕ) where
  acceptor_step-IsDeaf :
      (sock : ℕ) (r : WriteResult) (a : Acceptor) (s : System)
      → s.at_acceptor ≡ a
      → IsDeaf s
      → IsDeaf (acceptor_step limit sock r a s)
  unfolding acceptor_step
  acceptor_step-IsDeaf sock r idle s e d = ground arith
  acceptor_step-IsDeaf sock r claiming s e d = ground arith
  acceptor_step-IsDeaf sock r signalling s e d = absurd (ground arith)

  worker_step-IsDeaf :
      (w : Worker) (s : System) → s.at_worker ≡ w → IsDeaf s → IsDeaf (worker_step w s)
  unfolding worker_step
  worker_step-IsDeaf starting s e d = ground arith
  worker_step-IsDeaf w s e d = ground arith

  run-IsDeaf : (turns : List Turn) (s : System) → IsDeaf s → IsDeaf (run limit turns s)
  unfolding run step
  run-IsDeaf [] s d = d
  run-IsDeaf (worker ∷ turns) s d =
      run-IsDeaf turns (worker_step s.at_worker s) (worker_step-IsDeaf s.at_worker s refl d)
  run-IsDeaf (acceptor sock r ∷ turns) s d =
      run-IsDeaf turns (acceptor_step limit sock r s.at_acceptor s)
        (acceptor_step-IsDeaf sock r s.at_acceptor s refl d)

  no_eventfd :
      (sock : ℕ) (r : WriteResult)
      → IsDeaf (
          acceptor_step limit sock r signalling
            (record made { queue = sock ∷ []; pending_notify = true; at_acceptor = signalling }))
  unfolding acceptor_step
  no_eventfd sock written = ground arith
  no_eventfd sock interrupted = ground arith
  no_eventfd sock failed = ground arith

  queued_early :
      (sock : ℕ) (r r' r'' : WriteResult)
      → limit ≢ 0
      → IsDeaf (run limit (acceptor sock r ∷ acceptor sock r' ∷ acceptor sock r'' ∷ []) made)
  unfolding run step acceptor_step
  queued_early sock r r' r'' h =
      let room : (0 == limit) ≡ false = ground arith in rw room (no_eventfd sock r'')

  -- If the acceptor completes `enqueue_sock`, on a queue with room, before the worker has run
  -- `startup`, then no socket is ever handled, whatever the two do afterwards.
  pub startup_race :
      (sock : ℕ) (r r' r'' : WriteResult) (turns : List Turn)
      → limit ≢ 0
      → (run limit turns
          (run limit (acceptor sock r ∷ acceptor sock r' ∷ acceptor sock r'' ∷ []) made)).handled
        ≡ []
  startup_race sock r r' r'' turns h = (run-IsDeaf turns _ (queued_early sock r r' r'' h)).nothing
