-- ===== src/Notify/Tests.antt =====
-- The theorems on the wakeup at concrete schedules.
use h2_server.Prelude.{◌≡◌, List, [], ◌∷◌, arith}
use h2_server.Notify.{written, interrupted, Turn, acceptor, worker, run, made}
use h2_server.Notify.Startup.{startup_race}

-- Two sockets are queued, the first with its signal, whose write is interrupted once.
abbrev two_queued : List Turn
two_queued =
    acceptor 5 written
    ∷ acceptor 5 written
    ∷ acceptor 5 interrupted
    ∷ acceptor 5 written
    ∷ acceptor 6 written
    ∷ acceptor 6 written
    ∷ []

startup_race_example :
    (run 4
      (acceptor 6 written ∷ worker ∷ worker ∷ worker ∷ [])
      (run 4 (acceptor 5 written ∷ acceptor 5 written ∷ acceptor 5 written ∷ []) made)).handled
    ≡ []
startup_race_example =
    startup_race 4 5 written written written (acceptor 6 written ∷ worker ∷ worker ∷ worker ∷ [])
      (omega arith)
