-- ===== src/Serve/Loop.antt =====
-- The outer loop, from a server that has been started.
use h2_server.Prelude.{
  ℕ, ◌^◌, ◌<◌, ◌≡◌, ◌≢◌, refl, sym, ap, subst, ◌∙◌, Option, none, some, List, [], ◌∷◌, ◌++◌,
  replicate, length, All, map, arith, append-nil, append_assoc, length-replicate, All-append,
  All-replicate,
}
use h2_server.CircularQueue.{CircularQueue}
use h2_server.CircularQueue as Queue
use h2_server.CircularQueue.Refine.{IsValid, make-IsValid}
use h2_server.CircularQueue.Capacity.{round_to_pow2_nearest}
use h2_server.LoadBalancer as Balancer
use h2_server.LoadBalancer.{reset}
use h2_server.LoadBalancer.Acquire.{reset-round_robin}
use h2_server.LoadBalancer.Accept.{Event, Fate, Server, handle_accept}
use h2_server.LoadBalancer.Accept.Delivery.{
  IsSound, accepted, socket, Settled, handle_accept-Delivered,
}
use h2_server.Serve.{
  Wait, woken, wait_interrupted, wait_failed, spawn_workers, accept_loop, new_server, start,
}

-- The sockets that `accept4` gives until the loop ends.
abbrev pub arrived : List Wait → List ℕ
arrived [] = []
arrived (woken events ∷ waits) = accepted events ++ arrived waits
arrived (wait_interrupted ∷ waits) = arrived waits
arrived (wait_failed ∷ waits) = []

-- A server behind the waits.
pub record Served (waits : List Wait) (s : Server) (r : Option Server) : Type 0 where
  pub after : Server
  pub returns : r ≡ some after
  pub sound : IsSound after
  pub as_many : length after.workers ≡ length s.workers
  pub news : List Fate
  pub logged : after.fates ≡ s.fates ++ news
  pub every_socket : map socket news ≡ arrived waits
  pub settled : All (Settled (length s.workers)) news

map-append : (xs ys : List Fate) → map socket (xs ++ ys) ≡ map socket xs ++ map socket ys
map-append [] ys = refl
map-append (x ∷ xs) ys = ap (λ l. socket x ∷ l) (map-append xs ys)

accept_loop-woken :
    (events : List Event) (waits : List Wait) (s s' : Server)
    → handle_accept events s ≡ some s'
    → accept_loop (woken events ∷ waits) s ≡ accept_loop waits s'
unfolding accept_loop
accept_loop-woken events waits s s' e = rw (e, accept_loop) refl

pub accept_loop-Served :
    (waits : List Wait) (s : Server) → IsSound s → Served waits s (accept_loop waits s)
unfolding accept_loop
accept_loop-Served [] s h = record {
  after = s;
  returns = refl;
  sound = h;
  as_many = refl;
  news = [];
  logged = sym (append-nil s.fates);
  every_socket = refl;
  settled = tt;
}
accept_loop-Served (wait_interrupted ∷ waits) s h =
    let r = accept_loop-Served waits s h in
    record {
      after = r.after;
      returns = r.returns;
      sound = r.sound;
      as_many = r.as_many;
      news = r.news;
      logged = r.logged;
      every_socket = r.every_socket;
      settled = r.settled;
    }
accept_loop-Served (wait_failed ∷ waits) s h = record {
  after = s;
  returns = refl;
  sound = h;
  as_many = refl;
  news = [];
  logged = sym (append-nil s.fates);
  every_socket = refl;
  settled = tt;
}
accept_loop-Served (woken events ∷ waits) s h =
    let d = handle_accept-Delivered events s h in
    let r = accept_loop-Served waits d.after d.sound in
    record {
      after = r.after;
      returns = accept_loop-woken events waits s d.after d.returns ∙ r.returns;
      sound = r.sound;
      as_many = r.as_many ∙ d.as_many;
      news = d.news ++ r.news;
      logged = r.logged ∙ ap (λ l. l ++ r.news) d.logged ∙ append_assoc s.fates d.news r.news;
      every_socket =
          map-append d.news r.news
          ∙ ap (λ l. l ++ map socket r.news) d.every_socket
          ∙ ap (λ l. accepted events ++ l) r.every_socket;
      settled =
          All-append (Settled (length s.workers)) d.news r.news d.settled
            (subst (λ (n : ℕ). All (Settled n) r.news) d.as_many r.settled);
    }

abbrev pub new_queue : CircularQueue ℕ
new_queue = Queue.make 0 4096

pub queue-IsValid : IsValid new_queue
queue-IsValid =
    let (k, le, e, _) = round_to_pow2_nearest 4096 (omega arith) (omega arith) in
    make-IsValid 0 4096 k le e

balancer-reset : (n size : ℕ) → Balancer.make n size ≡ reset n (replicate size 0)
unfolding Balancer.make reset
balancer-reset n size = refl

new_server-table :
    (r : Option (List ℕ)) (table : List ℕ)
    → r ≡ some table
    → ◌≡◌ {A = Option Server}
        (elim r [
          | none ↦ none
          | some t ↦ some (record { indirect_table = t; workers = []; fates = [] })
        ])
        (some (record { indirect_table = table; workers = []; fates = [] }))
new_server-table r table e = rw e refl

pub new_server-some :
    (table : List ℕ) × (length table ≡ 1024)
    × (new_server ≡ some (record { indirect_table = table; workers = []; fates = [] }))
unfolding new_server
new_server-some =
    let size = length-replicate {A = ℕ} 1024 0 in
    let (table, made, long, _, _) =
      reset-round_robin 1 (replicate 1024 0) (omega arith) (omega (arith, size)) in
    (table, long ∙ size, new_server-table _ table (balancer-reset 1 1024 ∙ made))

-- The state in which the outer loop begins.
pub start-begin :
    (n : ℕ) (waits : List Wait) (table : List ℕ)
    → n ≢ 0
    → n < 2 ^ 8
    → length table ≡ 1024
    → (s : Server) × IsSound s
      × (length s.workers ≡ n)
      × (s.fates ≡ [])
      × (start n waits (record { indirect_table = table; workers = []; fates = [] })
          ≡ accept_loop waits s)
unfolding start spawn_workers
start-begin n waits table some_thread byte size =
    let (t, made, long, names, _) = reset-round_robin n table some_thread (omega (arith, size)) in
    let workers : length (replicate n new_queue) ≡ n = length-replicate n new_queue in
    (
      record { indirect_table = t; workers = replicate n new_queue; fates = [] },
      record {
        slots = omega (arith, long, size);
        few = omega (arith, workers);
        names = subst (λ (k : ℕ). All (λ v. v < k) t) (sym workers) names;
        queues = All-replicate IsValid n new_queue queue-IsValid;
      },
      workers,
      refl,
      rw (made, start) refl,
    )
