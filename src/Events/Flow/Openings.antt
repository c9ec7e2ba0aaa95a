-- ===== src/Events/Flow/Openings.antt =====
-- A handshake and a new connection keep the bytes balanced.
use h2_server.Prelude.{ℕ, refl, Bool, true, false, [], ◌∷◌, ◌++◌, ==_refl, if◌then◌else◌}
use h2_server.Connection.{
  SessionState, disconnecting, tls_handshaking, established, SessionData,
  update_ssl_handshake_events,
}
use h2_server.Events.{Worker, apply, update_events, store}
use h2_server.Events.Handshake.{
  SslAccept, accepted, accept_wants, accept_failed, Opening, establish_connection, do_tls_handshake,
  establish, after_handshake, handle_tls_handshake, after_accept, new_session, forget_traffic,
  open_connection,
}
use h2_server.Events.Flow.{
  Flowing, Flows, same-Flowing, apply-Flowing, disconnect-Flows, store-Flows, update-Flowing,
}
use h2_server.Events.Flow.Sides.{update_event-buffers}

module _ (sock : ℕ) where
  establish-Flows :
      (opening : Opening) (s : SessionData) (w : Worker)
      → Flowing sock s w
      → Flows (establish sock opening s w)
  unfolding establish establish_connection
  establish-Flows opening s w f = by_result opening.settings_submitted
    where
      by_result :
          (b : Bool) → Flows (establish sock (record opening { settings_submitted = b }) s w)
      by_result false = disconnect-Flows sock s w f
      by_result true =
          let s' = record s { state = established } in
          let r = apply sock (update_events opening.wants s' w.use_tls) w in
          store-Flows sock r.0 r.1 (update-Flowing sock opening.wants s' w w.use_tls f)

  abbrev FlowsShaken : SessionState × SessionData × Worker → Type 0
  FlowsShaken (state, s, w) = Flowing sock s w

  do_tls_handshake-FlowsShaken :
      (accept : SslAccept) (s : SessionData) (w : Worker)
      → Flowing sock s w
      → FlowsShaken (do_tls_handshake sock accept s w)
  unfolding do_tls_handshake update_ssl_handshake_events
  do_tls_handshake-FlowsShaken (accepted selected) s w f = f
  do_tls_handshake-FlowsShaken (accept_wants want_read want_write) s w f =
      let r = update_ssl_handshake_events want_read want_write s in
      let b = update_event-buffers _ s in
      apply-Flowing sock r w (same-Flowing sock s r.0 w b.0 b.1 f)
  do_tls_handshake-FlowsShaken accept_failed s w f = f

  after_handshake-Flows :
      (opening : Opening) (r : SessionState × SessionData × Worker)
      → FlowsShaken r
      → Flows (after_handshake sock opening r)
  unfolding after_handshake
  after_handshake-Flows opening (disconnecting, s, w) f = disconnect-Flows sock s w f
  after_handshake-Flows opening (tls_handshaking, s, w) f = store-Flows sock s w f
  after_handshake-Flows opening (_, s, w) f = establish-Flows opening s w f

  after_accept-Flows :
      (opening : Opening) (r : SessionState × SessionData × Worker)
      → FlowsShaken r
      → Flows (after_accept sock opening r)
  unfolding after_accept
  after_accept-Flows opening (disconnecting, s, w) f = disconnect-Flows sock s w f
  after_accept-Flows opening (tls_handshaking, s, w) f = store-Flows sock _ w f
  after_accept-Flows opening (_, s, w) f = establish-Flows opening s w f

  pub handle_tls_handshake-Flows :
      (opening : Opening) (s : SessionData) (w : Worker)
      → Flowing sock s w
      → Flows (handle_tls_handshake sock opening s w)
  unfolding handle_tls_handshake
  handle_tls_handshake-Flows opening s w f =
      after_handshake-Flows opening (do_tls_handshake sock opening.accept s w)
        (do_tls_handshake-FlowsShaken opening.accept s w f)

  stored-Flowing :
      (w : Worker)
      → Flows w
      → Flowing sock new_session (store sock new_session (forget_traffic sock w))
  unfolding store forget_traffic Flows
  stored-Flowing w flows = (rw (==_refl sock) (refl, refl), λ other ne. rw ne (flows other))

  pub open_connection-Flows :
      (opening : Opening) (w : Worker) → Flows w → Flows (open_connection sock opening w)
  unfolding open_connection Flows
  open_connection-Flows opening w flows = by_result opening.initialised w.use_tls
    where
      stored : Worker
      stored = store sock new_session (forget_traffic sock w)

      by_result :
          (b use_tls : Bool)
          → Flows (
              if b
              then (if use_tls
                  then after_accept sock opening
                      (do_tls_handshake sock opening.accept new_session stored)
                  else establish sock opening new_session stored)
              else record w { closed = w.closed ++ sock ∷ [] })
      by_result true true =
          after_accept-Flows opening (do_tls_handshake sock opening.accept new_session stored) (
            do_tls_handshake-FlowsShaken opening.accept new_session stored (stored-Flowing w flows))
      by_result true false = establish-Flows opening new_session stored (stored-Flowing w flows)
      by_result false use_tls = flows
