-- ===== src/System/Steps.antt =====
-- Every step keeps each open socket in one place.
use h2_server.Prelude.{
  true, All, ℕ, ◌+◌, ◌≤◌, ◌<◌, ◌≡◌, refl, sym, subst, ◌∙◌, some, [], ◌∷◌, get_elem?, set, total-set,
  total-get_elem?, get_elem?-some, set_same, All-set, All-get_elem?, length, length-set, arith,
}
use h2_server.CircularQueue.{CircularQueue}
use h2_server.CircularQueue.Refine.{IsValid}
use h2_server.LoadBalancer.Accept.{Server}
use h2_server.LoadBalancer.Accept.Delivery.{IsSound}
use h2_server.Connection.{IsSent}
use h2_server.Events.{Worker, Results}
use h2_server.Events.Handshake.{Opening, socket_event}
use h2_server.Events.Runs.{handle-Keeps}
use h2_server.Events.Flow.{Flows, FlowsAfter}
use h2_server.Events.Flow.Runs.{handle-Flows}
use h2_server.Events.Sessions.{Sound, times, accounted}
use h2_server.System.{System, Action, takes_one, client, take_round, client_event}
use h2_server.System.Arrives.{accept_one-Round}
use h2_server.System.Placed.{
  in_queue, in_session, closed_in, places, closes, IsPlaced, Steps, accepted_by,
}

replaced :
    (server : Server) (i : ℕ) (queue : CircularQueue ℕ)
    → IsSound server
    → IsValid queue
    → IsSound (record server { workers = set server.workers i queue })
replaced server i queue h v =
    let same_length = length-set server.workers i queue in
    record {
      slots = h.slots;
      few = rw same_length h.few;
      names = rw same_length h.names;
      queues = All-set IsValid server.workers i queue h.queues v;
    }

-- The invariant behind a step that adds no socket, and undoes no close.
module _ (sys : System) (h : IsPlaced sys) (i : ℕ) (queue queue' : CircularQueue ℕ) (w w' : Worker)
    (queue_here : get_elem? sys.server.workers i ≡ some queue)
    (w_here : get_elem? sys.sessions i ≡ some w) (valid : IsValid queue') (sound : Sound w')
    (flows : Flows w')
    (counted : (sock : ℕ)
      → in_queue sock queue' + accounted sock w' ≡ in_queue sock queue + accounted sock w)
    (closed : (sock : ℕ) → closed_in sock w ≤ closed_in sock w') where
  abbrev moved : System
  moved = record sys {
    server = record sys.server { workers = set sys.server.workers i queue' };
    sessions = set sys.sessions i w';
  }

  moved_counted :
      (sock : ℕ) → places sock moved + closes sock moved ≡ places sock sys + closes sock sys
  unfolding places closes
  moved_counted sock = omega (
    arith,
    counted sock,
    total-set (in_queue sock) sys.server.workers i queue queue' queue_here,
    total-set (in_session sock) sys.sessions i w w' w_here,
    total-set (closed_in sock) sys.sessions i w w' w_here,
  )

  moved-closes : (sock : ℕ) → closes sock sys ≤ closes sock moved
  unfolding closes
  moved-closes sock =
      omega (arith, closed sock, total-set (closed_in sock) sys.sessions i w w' w_here)

  pub moved-IsPlaced : IsPlaced moved
  moved-IsPlaced = record {
    server = replaced sys.server i queue' h.server valid;
    as_many =
        length-set sys.sessions i w' ∙ h.as_many ∙ sym (length-set sys.server.workers i queue');
    workers = All-set Sound sys.sessions i w' h.workers sound;
    flows = All-set Flows sys.sessions i w' h.flows flows;
    single = λ sock. omega (arith, h.single sock, moved_counted sock, moved-closes sock);
  }

  pub moved_steps :
      (action : Action)
      → ((sock : ℕ) → times sock (accepted_by (action ∷ [])) ≡ 0)
      → Steps action sys (some moved)
  moved_steps action no_socket =
      (moved, refl, moved-IsPlaced, λ sock. omega (arith, moved_counted sock, no_socket sock))

-- The worker of an index is there, with its queue.
there :
    (sys : System) (i : ℕ)
    → IsPlaced sys
    → i < length sys.sessions
    → (queue : CircularQueue ℕ) × (w : Worker) × (get_elem? sys.server.workers i ≡ some queue)
      × (get_elem? sys.sessions i ≡ some w)
there sys i h lt =
    let (queue, queue_here) = get_elem?-some sys.server.workers i (omega (arith, h.as_many)) in
    let (w, w_here) = get_elem?-some sys.sessions i lt in (queue, w, queue_here, w_here)

single_here :
    (sys : System) (i : ℕ) (queue : CircularQueue ℕ) (w : Worker)
    → IsPlaced sys
    → get_elem? sys.server.workers i ≡ some queue
    → get_elem? sys.sessions i ≡ some w
    → (sock : ℕ) → in_queue sock queue + in_session sock w ≤ 1
unfolding places
single_here sys i queue w h queue_here w_here sock = omega (
  arith,
  h.single sock,
  total-get_elem? (in_queue sock) sys.server.workers i queue queue_here,
  total-get_elem? (in_session sock) sys.sessions i w w_here,
)

pub take_round-Steps :
    (i : ℕ) (opening : Opening) (sys : System)
    → IsPlaced sys
    → i < length sys.sessions
    → opening.ssl_made ≡ true
    → Steps (takes_one i opening) sys (take_round i opening sys)
unfolding take_round
take_round-Steps i opening sys h lt made =
    let (queue, w, queue_here, w_here) = there sys i h lt in
    let v = All-get_elem? IsValid sys.server.workers i queue h.server.queues queue_here in
    let sound = All-get_elem? Sound sys.sessions i w h.workers w_here in
    let flows = All-get_elem? Flows sys.sessions i w h.flows w_here in
    let r =
      accept_one-Round opening queue w made v sound flows
        (single_here sys i queue w h queue_here w_here) in
    rw (queue_here, w_here, r.returns, take_round)
      (moved_steps sys h i queue r.queue_after w r.after queue_here w_here r.valid r.sound r.flows
        r.counted r.closed (takes_one i opening) (λ sock. refl))

pub client_event-Steps :
    (i sock ev : ℕ) (results : Results) (opening : Opening) (sys : System)
    → IsPlaced sys
    → i < length sys.sessions
    → All IsSent results.chunks
    → Steps
        (client i sock ev results opening)
        sys
        (client_event i (socket_event sock ev results opening) sys)
unfolding client_event
client_event-Steps i sock ev results opening sys h lt sent =
    let (queue, w, queue_here, w_here) = there sys i h lt in
    let v = All-get_elem? IsValid sys.server.workers i queue h.server.queues queue_here in
    let sound = All-get_elem? Sound sys.sessions i w h.workers w_here in
    let flows = All-get_elem? Flows sys.sessions i w h.flows w_here in
    let (w', ran, (sound', counted, closed)) =
      handle-Keeps (socket_event sock ev results opening) w sound sent in
    let flows' =
      subst FlowsAfter ran (handle-Flows (socket_event sock ev results opening) w flows) in
    rw (w_here, ran, client_event)
      (subst
        (λ queues. Steps (client i sock ev results opening) sys (
          some (record sys {
            server = record sys.server { workers = queues };
            sessions = set sys.sessions i w';
          })))
        (set_same sys.server.workers i queue queue_here)
        (moved_steps sys h i queue queue w w' queue_here w_here v sound' flows'
          (λ other. omega (arith, counted other)) closed (client i sock ev results opening)
          (λ other. refl)))
