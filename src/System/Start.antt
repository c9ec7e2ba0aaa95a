-- ===== src/System/Start.antt =====
-- The sockets of the server, from its start on.
use h2_server.Prelude.{
  ℕ, ◌+◌, ◌^◌, ◌≤◌, ◌<◌, ◌≡◌, ◌≢◌, refl, sym, ap, subst, ◌∙◌, Bool, some, List, [], length,
  replicate, total-replicate, All-replicate, length-replicate, All, arith,
}
use h2_server.CircularQueue.Refine.{IsValid, make-empty}
use h2_server.LoadBalancer.Acquire.{reset-round_robin}
use h2_server.LoadBalancer.Accept.Delivery.{IsSound}
use h2_server.Serve.{spawn_workers}
use h2_server.Serve.Loop.{new_queue, queue-IsValid, new_server-some}
use h2_server.Events.Flow.{Flows}
use h2_server.Events.Sessions.{Sound, times}
use h2_server.System.{System, Action, new_worker, begun, execute}
use h2_server.System.Placed.{in_queue, in_session, closed_in, places, closes, IsPlaced, accepted_by}
use h2_server.System.Runs.{Then, AllHappen, run-IsPlaced}

new_worker-Sound : (use_tls : Bool) → Sound (new_worker use_tls)
unfolding Sound
new_worker-Sound use_tls sock = refl

new_worker-Flows : (use_tls : Bool) → Flows (new_worker use_tls)
unfolding Flows
new_worker-Flows use_tls sock = ([], [], (refl, refl))

nothing_queued : (sock : ℕ) → in_queue sock new_queue ≡ 0
nothing_queued sock = ap (times sock) (make-empty 0 4096 queue-IsValid)

-- The server that is begun with a table of these entries.
abbrev beginning : Bool → ℕ → List ℕ → System
beginning use_tls n table = record {
  server = record { indirect_table = table; workers = replicate n new_queue; fates = [] };
  sessions = replicate n (new_worker use_tls);
}

begun-some :
    (use_tls : Bool) (n : ℕ)
    → n ≢ 0
    → n < 2 ^ 8
    → (table : List ℕ) × (begun use_tls n ≡ some (beginning use_tls n table))
      × IsSound (beginning use_tls n table).server
unfolding begun spawn_workers
begun-some use_tls n some_thread byte =
    let (table, size, made) = new_server-some in
    let (t, dealt, long, names, _) = reset-round_robin n table some_thread (omega (arith, size)) in
    let workers : length (replicate n new_queue) ≡ n = length-replicate n new_queue in
    (
      t,
      rw (made, dealt, begun) refl,
      record {
        slots = omega (arith, long, size);
        few = omega (arith, workers);
        names = subst (λ (k : ℕ). All (λ v. v < k) t) (sym workers) names;
        queues = All-replicate IsValid n new_queue queue-IsValid;
      },
    )

module _ (use_tls : Bool) (n : ℕ) (table : List ℕ) where
  beginning-places : (sock : ℕ) → places sock (beginning use_tls n table) ≡ 0
  unfolding places
  beginning-places sock = omega (
    arith,
    total-replicate (in_queue sock) n new_queue (nothing_queued sock),
    total-replicate (in_session sock) n (new_worker use_tls) refl,
  )

  beginning-closes : (sock : ℕ) → closes sock (beginning use_tls n table) ≡ 0
  unfolding closes
  beginning-closes sock =
      omega (arith, total-replicate (closed_in sock) n (new_worker use_tls) refl)

  beginning-IsPlaced :
      IsSound (beginning use_tls n table).server → IsPlaced (beginning use_tls n table)
  beginning-IsPlaced sound = record {
    server = sound;
    as_many = length-replicate n (new_worker use_tls) ∙ sym (length-replicate n new_queue);
    workers = All-replicate Sound n (new_worker use_tls) (new_worker-Sound use_tls);
    flows = All-replicate Flows n (new_worker use_tls) (new_worker-Flows use_tls);
    single = λ sock. omega (arith, beginning-places sock);
  }

-- A server that is started with 1 to 255 threads: let `accept4` only give descriptors that are in no
-- place, that is in no queue and in no session map, let `SSL_new` give an object for each new connection,
-- and `nghttp2_session_mem_send2` no negative result. Then any sequence of rounds of the acceptor and of
-- workers that are there, in any order, runs to its end: no index of a table, a ring or the workers is out of
-- range, and the assertion of `front` does not fail. In the end the bytes of
-- every worker's connections balance: what nghttp2 has processed and what the input buffer of a session
-- holds are what came in from its socket, in order, and what went out and what the output buffer holds
-- are what nghttp2 has made. Each socket is in at most one place, and its places and the closes that were
-- made of it are together as many as the times that it was accepted.
pub execute-accounted :
    (use_tls : Bool) (n : ℕ) (actions : List Action)
    → n ≢ 0
    → n < 2 ^ 8
    → Then (begun use_tls n) (λ sys. AllHappen actions sys)
    → (sys : System) × (execute use_tls n actions ≡ some sys)
      × All Flows sys.sessions
      × ((sock : ℕ)
          → (places sock sys ≤ 1)
            × (places sock sys + closes sock sys ≡ times sock (accepted_by actions)))
unfolding execute
execute-accounted use_tls n actions some_thread byte happen =
    let (table, begins, sound) = begun-some use_tls n some_thread byte in
    let happen' : AllHappen actions (beginning use_tls n table) =
      subst (λ o. Then o (λ sys. AllHappen actions sys)) begins happen in
    let (sys, ran, placed, counts) =
      run-IsPlaced actions (beginning use_tls n table) (beginning-IsPlaced use_tls n table sound)
        happen' in
    (
      sys,
      rw (begins, execute) ran,
      placed.flows,
      λ sock. (
        placed.single sock,
        omega (
          arith,
          counts sock,
          beginning-places use_tls n table sock,
          beginning-closes use_tls n table sock,
        ),
      ),
    )
