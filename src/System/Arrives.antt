-- ===== src/System/Arrives.antt =====
-- What a worker's round does to the places.
use h2_server.Prelude.{
  ℕ, ◌+◌, ◌≤◌, ◌≡◌, refl, ap, ◌∙◌, Bool, true, false, Option, none, some, List, [], ◌∷◌, arith,
  ==_refl,
}
use h2_server.CircularQueue.{CircularQueue}
use h2_server.CircularQueue.Refine.{IsValid, contents}
use h2_server.Connection.{SessionData}
use h2_server.Events.{Worker}
use h2_server.Events.Arrivals.{dequeue_sock, accept_one, Dequeued, dequeue_sock-Dequeued}
use h2_server.Events.Handshake.{Opening, open_connection, handle_new_connection-made}
use h2_server.Events.Runs.{new_connection-Keeps}
use h2_server.Events.Flow.{Flows}
use h2_server.Events.Flow.Openings.{open_connection-Flows}
use h2_server.Events.Sessions.{Sound, times, accounted, one_if}
use h2_server.System.Placed.{in_queue, in_session, closed_in}

-- What a round leaves of a worker and its queue.
pub record Round (queue : CircularQueue ℕ) (w : Worker)
    (o : Option (Bool × CircularQueue ℕ × Worker)) : Type 0 where
  pub again : Bool
  pub queue_after : CircularQueue ℕ
  pub after : Worker
  pub returns : o ≡ some (again, queue_after, after)
  pub valid : IsValid queue_after
  pub sound : Sound after
  pub flows : Flows after
  pub counted :
      (sock : ℕ)
      → in_queue sock queue_after + accounted sock after ≡ in_queue sock queue + accounted sock w
  pub closed : (sock : ℕ) → closed_in sock w ≤ closed_in sock after

free : (o : Option SessionData) → one_if o ≡ 0 → o ≡ none
free none e = refl
free (some s) e = absurd (omega arith)

pub accept_one-Round :
    (opening : Opening) (queue : CircularQueue ℕ) (w : Worker)
    → opening.ssl_made ≡ true
    → IsValid queue
    → Sound w
    → Flows w
    → ((sock : ℕ) → in_queue sock queue + in_session sock w ≤ 1)
    → Round queue w (accept_one opening queue w)
unfolding accept_one
accept_one-Round opening queue w made v sound flows single =
    by_contents (contents 0 queue) refl (dequeue_sock-Dequeued queue v)
  where
    by_contents :
        (socks : List ℕ)
        → contents 0 queue ≡ socks
        → Dequeued queue socks (dequeue_sock queue)
        → Round queue w (accept_one opening queue w)
    by_contents [] same d =
        rw (d, accept_one)
          record {
            again = false;
            queue_after = queue;
            after = w;
            returns = refl;
            valid = v;
            sound = sound;
            flows = flows;
            counted = λ sock. refl;
            closed = λ sock. omega arith;
          }
    by_contents (x ∷ socks) same (queue', d, v', same') =
        let here : in_queue x queue ≡ 1 + times x socks = ap (times x) same ∙ rw (==_refl x) refl in
        let alone : one_if (w.session_map x) ≡ 0 = omega (arith, here, single x) in
        let keeps = new_connection-Keeps x opening w sound (free (w.session_map x) alone) in
        rw (d, handle_new_connection-made x opening w made, accept_one)
          record {
            again = true;
            queue_after = queue';
            after = open_connection x opening w;
            returns = refl;
            valid = v';
            sound = keeps.0;
            flows = open_connection-Flows x opening w flows;
            counted = λ sock.
                let before : in_queue sock queue ≡ times sock (x ∷ []) + times sock socks =
                  ap (times sock) same ∙ omega arith in
                let after : in_queue sock queue' ≡ times sock socks = ap (times sock) same' in
                omega (arith, before, after, keeps.1 sock);
            closed = keeps.2;
          }
