-- ===== src/Events/Arrivals.antt =====
-- The loop of `handle_new_connections` (src/worker.cc) over the worker's queue. What the calls for a
-- socket return is given per round.
use h2_server.Prelude.{
  ℕ, ◌≤◌, ◌≡◌, refl, ap, subst, ◌∙◌, Bool, true, false, not, Option, none, some, List, [], ◌∷◌,
  if◌then◌else◌, length, arith, All,
}
use h2_server.CircularQueue.{CircularQueue, is_empty, front, pop}
use h2_server.CircularQueue.Fifo.{Reply, flag, item, none_left, head?, rest}
use h2_server.CircularQueue.Refine.{
  IsValid, contents, pop-IsValid, is_empty_refines, front_refines, pop_refines,
}
use h2_server.Events.{Worker}
use h2_server.Events.Handshake.{
  Opening, open_connection, handle_new_connection, handle_new_connection-made, Event, new_socket,
  handle_all, handle,
}

-- `none` is the failed assertion of `front`, or its read outside the buffer; -1 is no socket.
unfoldable pub dequeue_sock : CircularQueue ℕ → Option (Option ℕ × CircularQueue ℕ)
dequeue_sock queue =
    if is_empty queue
    then some (none, queue)
    else elim (front queue) [ none ↦ none | some clnt_sock ↦ some (some clnt_sock, (pop queue).0) ]

-- One round, and whether another one follows.
unfoldable pub accept_one :
    Opening → CircularQueue ℕ → Worker → Option (Bool × CircularQueue ℕ × Worker)
unfolding dequeue_sock handle_new_connection
accept_one opening queue w = elim (dequeue_sock queue) [
  | none ↦ none
  | some (none, queue') ↦ some (false, queue', w)
  | some (some clnt_sock, queue') ↦ elim (handle_new_connection clnt_sock opening w) [
    | none ↦ none
    | some w' ↦ some (true, queue', w')
  ]
]

-- The rounds; `none` also where a socket is left for which nothing is given.
unfoldable pub handle_new_connections :
    List Opening → CircularQueue ℕ → Worker → Option (CircularQueue ℕ × Worker)
unfolding dequeue_sock accept_one
handle_new_connections [] queue w = elim (dequeue_sock queue) [
  | some (none, queue') ↦ some (queue', w)
  | _ ↦ none
]
handle_new_connections (opening ∷ openings) queue w = elim (accept_one opening queue w) [
  | none ↦ none
  | some (true, queue', w') ↦ handle_new_connections openings queue' w'
  | some (false, queue', w') ↦ some (queue', w')
]

-- What `dequeue_sock` makes of a queue with these sockets.
abbrev pub Dequeued : CircularQueue ℕ → List ℕ → Option (Option ℕ × CircularQueue ℕ) → Type 0
Dequeued queue [] o = o ≡ some (none, queue)
Dequeued queue (sock ∷ socks) o =
    (queue' : CircularQueue ℕ) × (o ≡ some (some sock, queue'))
    × IsValid queue'
    × (contents 0 queue' ≡ socks)

pub dequeue_sock-Dequeued :
    (queue : CircularQueue ℕ)
    → IsValid queue
    → Dequeued queue (contents 0 queue) (dequeue_sock queue)
unfolding dequeue_sock
dequeue_sock-Dequeued queue v =
    by_contents (contents 0 queue) (is_empty_refines 0 v) (front_refines 0 v) (pop_refines 0 v)
  where
    by_contents :
        (socks : List ℕ)
        → is_empty queue ≡ none_left socks
        → item (front queue) ≡ item (head? socks)
        → ◌≡◌ {A = List ℕ × Reply ℕ}
            (contents 0 (pop queue).0, flag (pop queue).1)
            (rest socks, flag (not (none_left socks)))
        → Dequeued queue socks (dequeue_sock queue)
    by_contents [] e f p = rw e refl
    by_contents (sock ∷ socks) e f p =
        let here : front queue ≡ some sock = cc in
        ((pop queue).0, rw (e, here) refl, pop-IsValid v, ap (λ r. r.0) p)

-- The sockets, each with what is given for it.
abbrev pub arrivals : List ℕ → List Opening → List Event
arrivals (sock ∷ socks) (opening ∷ openings) = new_socket sock opening ∷ arrivals socks openings
arrivals _ _ = []

-- What the loop leaves, if it has emptied the queue.
abbrev pub Drained : List Event → Worker → Option (CircularQueue ℕ × Worker) → Type 0
Drained events w o =
    (queue' : CircularQueue ℕ) × (w' : Worker) × (o ≡ some (queue', w'))
    × IsValid queue'
    × (contents 0 queue' ≡ [])
    × (handle_all events w ≡ some w')

stops :
    (openings : List Opening) (queue : CircularQueue ℕ) (w : Worker)
    → dequeue_sock queue ≡ some (none, queue)
    → handle_new_connections openings queue w ≡ some (queue, w)
unfolding handle_new_connections accept_one
stops [] queue w d = rw (d, handle_new_connections) refl
stops (opening ∷ openings) queue w d = rw (d, handle_new_connections, accept_one) refl

goes_on :
    (opening : Opening) (openings : List Opening) (sock : ℕ) (queue queue' : CircularQueue ℕ)
    (w : Worker)
    → dequeue_sock queue ≡ some (some sock, queue')
    → opening.ssl_made ≡ true
    → handle_new_connections (opening ∷ openings) queue w
      ≡ handle_new_connections openings queue' (open_connection sock opening w)
unfolding handle_new_connections accept_one
goes_on opening openings sock queue queue' w d made =
    rw (d, handle_new_connection-made sock opening w made, handle_new_connections, accept_one) refl

drains :
    (openings : List Opening) (socks : List ℕ) (queue : CircularQueue ℕ) (w : Worker)
    → IsValid queue
    → contents 0 queue ≡ socks
    → Dequeued queue socks (dequeue_sock queue)
    → length socks ≤ length openings
    → All (λ opening. opening.ssl_made ≡ true) openings
    → Drained (arrivals socks openings) w (handle_new_connections openings queue w)
unfolding handle_all handle
drains openings [] queue w v same d le made =
    (queue, w, stops openings queue w d, v, same, no_arrivals openings)
  where
    no_arrivals : (openings : List Opening) → handle_all (arrivals [] openings) w ≡ some w
    no_arrivals openings = refl
drains [] (sock ∷ socks) queue w v same d le made = absurd (omega arith)
drains (opening ∷ openings) (sock ∷ socks) queue w v same (queue1, d, v1, same1) le made =
    let next =
      subst (λ (l : List ℕ). Dequeued queue1 l (dequeue_sock queue1)) same1
        (dequeue_sock-Dequeued queue1 v1) in
    let (queue2, w2, ran, v2, left, all) =
      drains openings socks queue1 (open_connection sock opening w) v1 same1 next (omega arith)
        made.1 in
    (
      queue2,
      w2,
      goes_on opening openings sock queue queue1 w d made.0 ∙ ran,
      v2,
      left,
      rw (handle_new_connection-made sock opening w made.0, handle_all, handle) all,
    )

-- On a valid queue, with results given for at least as many sockets as it holds, and where `SSL_new` gives
-- an object each time, the loop returns.
-- The queue is then valid and empty, and the worker is what handling the sockets of the queue as new
-- connections leaves, in the order in which they were queued.
pub handle_new_connections-Drained :
    (openings : List Opening) (queue : CircularQueue ℕ) (w : Worker)
    → IsValid queue
    → length (contents 0 queue) ≤ length openings
    → All (λ opening. opening.ssl_made ≡ true) openings
    → Drained (arrivals (contents 0 queue) openings) w (handle_new_connections openings queue w)
handle_new_connections-Drained openings queue w v enough made =
    drains openings (contents 0 queue) queue w v refl (dequeue_sock-Dequeued queue v) enough made
