-- ===== src/Events/Flow/Runs.antt =====
-- The bytes of every connection, over any run of events.
use h2_server.Prelude.{
  Bool, true, false, ◌&&◌, not, if◌then◌else◌, ℕ, ◌≡◌, refl, subst, Option, none, some, List, [],
  ◌∷◌,
}
use h2_server.Connection.{SessionState, tls_handshaking, SessionData}
use h2_server.Events.{Worker, Results, handle_events}
use h2_server.Events.Handshake.{
  Opening, handle_tls_handshake, Event, new_socket, socket_event, dispatch_session, handle,
  open_connection, handle_new_connection, handle_all,
}
use h2_server.Events.Sessions.{Sound}
use h2_server.Events.Runs.{CanAllHappen, handle_all-Keeps}
use h2_server.Events.Flow.{Balances, Flowing, Flows, FlowsAfter}
use h2_server.Events.Flow.Handling.{handle_events-Flows}
use h2_server.Events.Flow.Openings.{handle_tls_handshake-Flows, open_connection-Flows}

dispatch_session-Flows :
    (sock ev : ℕ) (results : Results) (opening : Opening) (o : Option SessionData) (w : Worker)
    → Flows w
    → w.session_map sock ≡ o
    → FlowsAfter (dispatch_session sock ev results opening o w)
unfolding dispatch_session Flows
dispatch_session-Flows sock ev results opening none w flows there = flows
dispatch_session-Flows sock ev results opening (some s) w flows there = by_state s.state
  where
    flowing : Flowing sock s w
    flowing = (subst (λ o. Balances o (w.traffic sock)) there (flows sock), λ other ne. flows other)

    by_state :
        (state : SessionState)
        → FlowsAfter (elim state [
          | tls_handshaking ↦ some (handle_tls_handshake sock opening s w)
          | _ ↦ handle_events sock results ev s w
        ])
    by_state tls_handshaking = handle_tls_handshake-Flows sock opening s w flowing
    by_state _ = handle_events-Flows sock results ev s w flowing

pub handle-Flows : (event : Event) (w : Worker) → Flows w → FlowsAfter (handle event w)
unfolding handle handle_new_connection
handle-Flows (new_socket sock opening) w flows =
    by_test (opening.initialised && (w.use_tls && not opening.ssl_made))
  where
    by_test : (b : Bool) → FlowsAfter (if b then none else some (open_connection sock opening w))
    by_test true = tt
    by_test false = open_connection-Flows sock opening w flows
handle-Flows (socket_event sock ev results opening) w flows =
    dispatch_session-Flows sock ev results opening (w.session_map sock) w flows refl

FlowsAfter-then :
    (events : List Event) (o : Option Worker)
    → FlowsAfter o
    → ((w' : Worker) → Flows w' → FlowsAfter (handle_all events w'))
    → FlowsAfter (elim o [ none ↦ none | some w' ↦ handle_all events w' ])
FlowsAfter-then events none f next = tt
FlowsAfter-then events (some w') f next = next w' f

handle_all-FlowsAfter :
    (events : List Event) (w : Worker) → Flows w → FlowsAfter (handle_all events w)
unfolding handle_all
handle_all-FlowsAfter [] w flows = flows
handle_all-FlowsAfter (event ∷ events) w flows =
    FlowsAfter-then events (handle event w) (handle-Flows event w flows)
      (handle_all-FlowsAfter events)

-- Let a worker be sound, and let its bytes balance: for every session in the map, what nghttp2 has
-- processed and what the input buffer holds, in this order, are what came in from the socket, and what
-- went out and what the output buffer holds are what nghttp2 has made; for every other socket, what
-- nghttp2 has processed is the beginning of what came in, and what went out is the beginning of what
-- nghttp2 has made. Let each new socket have no session when it comes, let `SSL_new` give an object for it,
-- and let `nghttp2_session_mem_send2` give no negative result. Then any run of events returns, and in the
-- worker that it leaves the bytes balance again.
pub handle_all-Flows :
    (events : List Event) (w : Worker)
    → Sound w
    → CanAllHappen events w
    → Flows w
    → (w' : Worker) × (handle_all events w ≡ some w') × Flows w'
handle_all-Flows events w sound fresh flows =
    let (w', ran, sound', counts) = handle_all-Keeps events w sound fresh in
    (w', ran, subst FlowsAfter ran (handle_all-FlowsAfter events w flows))
