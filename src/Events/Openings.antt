-- ===== src/Events/Openings.antt =====
-- What a handshake and a new connection do to their socket.
use h2_server.Prelude.{
  ℕ, ◌≡◌, ◌≢◌, refl, sym, ap, subst, ◌∙◌, Bool, true, false, ◌==◌, if◌then◌else◌, arith, bit_or,
}
use h2_server.Connection.{
  SessionState, disconnecting, tls_handshaking, establishing, established, SessionData, epollin,
  epollout, update_ssl_handshake_events, should_close_after_disconnect,
}
use h2_server.Connection.Interest.{update_event-events}
use h2_server.Events.{Worker, update_events}
use h2_server.Events.Handshake.{
  SslAccept, accepted, accept_wants, accept_failed, Opening, validate_alpn, establish_connection,
  do_tls_handshake, establish, after_handshake, handle_tls_handshake, after_accept,
}
use h2_server.Events.Watching.{
  Settled, Handling, Handled, keep-Handling, apply-Handling, disconnect-Handled, store-Handled,
}
use h2_server.Events.Awake.{
  Updates, apply-awake, apply-state, apply-session, update_event-Updates, update_events-Updates,
}

some_event : (n : ℕ) → (if n == 0 then epollin else n) ≢ 0
some_event n = ground arith

handshake-awake :
    (want_read want_write : Bool) (s : SessionData)
    → (update_ssl_handshake_events want_read want_write s).0.events ≢ 0
unfolding update_ssl_handshake_events
handshake-awake r w s zero =
    let wanted = bit_or (if r then epollin else 0) (if w then epollout else 0) in
    some_event wanted (sym (update_event-events (if wanted == 0 then epollin else wanted) s) ∙ zero)

pub handshake-Updates :
    (want_read want_write : Bool) (s : SessionData)
    → Updates s (update_ssl_handshake_events want_read want_write s)
unfolding update_ssl_handshake_events
handshake-Updates r w s = update_event-Updates _ s

stays_open :
    (want_write : Bool) (s : SessionData)
    → s.state ≡ established
    → should_close_after_disconnect want_write s ≡ false
unfolding should_close_after_disconnect
stays_open want_write s e = rw e refl

module _ (sock : ℕ) (w0 : Worker) where
  establish-Handled :
      (opening : Opening) (s : SessionData) (w : Worker)
      → Handling sock w0 s w
      → Handled sock w0 (establish sock opening s w)
  unfolding establish establish_connection
  establish-Handled opening s w h = by_result opening.settings_submitted
    where
      submitted : SessionData
      submitted = record s { state = established }

      by_result :
          (b : Bool)
          → Handled sock w0 (establish sock (record opening { settings_submitted = b }) s w)
      by_result false = disconnect-Handled sock w0 s w h
      by_result true =
          let r = update_events opening.wants submitted w.use_tls in
          let u = update_events-Updates opening.wants submitted w.use_tls in
          let state = apply-state sock opening.wants submitted w w.use_tls in
          store-Handled sock w0 _ _
            (apply-Handling sock w0 submitted r w (keep-Handling sock w0 s submitted w h refl) u.0)
            (apply-awake sock opening.wants submitted w w.use_tls
              (stays_open opening.wants.write _ state))
            (subst Settled (sym state) tt)

  -- What `do_tls_handshake` leaves of a session.
  record Shaken (s : SessionData) (r : SessionState × SessionData × Worker) : Type 0 where
    handling : Handling sock w0 r.1 r.2
    same_state : r.1.state ≡ s.state
    waits : r.0 ≡ tls_handshaking → r.1.events ≢ 0

  do_tls_handshake-Shaken :
      (accept : SslAccept) (s : SessionData) (w : Worker)
      → Handling sock w0 s w
      → Shaken s (do_tls_handshake sock accept s w)
  unfolding do_tls_handshake
  do_tls_handshake-Shaken (accepted selected) s w h = record {
    handling = h;
    same_state = refl;
    waits = not_waiting (validate_alpn selected);
  }
    where
      not_waiting :
          (b : Bool)
          → ◌≡◌ {A = SessionState} (if b then establishing else disconnecting) tls_handshaking
          → s.events ≢ 0
      not_waiting true e = absurd cc
      not_waiting false e = absurd cc
  do_tls_handshake-Shaken (accept_wants want_read want_write) s w h =
      let r = update_ssl_handshake_events want_read want_write s in
      record {
        handling = apply-Handling sock w0 s r w h (handshake-Updates want_read want_write s).0;
        same_state =
            ap (λ (x : SessionData). x.state) (apply-session sock r w)
            ∙ (handshake-Updates want_read want_write s).1;
        waits = λ e zero.
            handshake-awake want_read want_write s
              (sym (ap (λ (x : SessionData). x.events) (apply-session sock r w)) ∙ zero);
      }
  do_tls_handshake-Shaken accept_failed s w h = record {
    handling = h;
    same_state = refl;
    waits = λ e. absurd cc;
  }

  after_handshake-Handled :
      (opening : Opening) (s : SessionData) (r : SessionState × SessionData × Worker)
      → Settled s.state
      → Shaken s r
      → Handled sock w0 (after_handshake sock opening r)
  unfolding after_handshake
  after_handshake-Handled opening s (disconnecting, s', w) settled h =
      disconnect-Handled sock w0 s' w h.handling
  after_handshake-Handled opening s (tls_handshaking, s', w) settled h =
      store-Handled sock w0 s' w h.handling (h.waits refl)
        (subst Settled (sym h.same_state) settled)
  after_handshake-Handled opening s (_, s', w) settled h = establish-Handled opening s' w h.handling

  after_accept-Handled :
      (opening : Opening) (s : SessionData) (r : SessionState × SessionData × Worker)
      → Shaken s r
      → Handled sock w0 (after_accept sock opening r)
  unfolding after_accept
  after_accept-Handled opening s (disconnecting, s', w) h =
      disconnect-Handled sock w0 s' w h.handling
  after_accept-Handled opening s (tls_handshaking, s', w) h =
      store-Handled sock w0 _ w (keep-Handling sock w0 s' _ w h.handling refl) (h.waits refl) tt
  after_accept-Handled opening s (_, s', w) h = establish-Handled opening s' w h.handling

  pub handle_tls_handshake-Handled :
      (opening : Opening) (s : SessionData) (w : Worker)
      → Handling sock w0 s w
      → Settled s.state
      → Handled sock w0 (handle_tls_handshake sock opening s w)
  unfolding handle_tls_handshake
  handle_tls_handshake-Handled opening s w h settled =
      after_handshake-Handled opening s _ settled (do_tls_handshake-Shaken opening.accept s w h)

  pub accept-Handled :
      (opening : Opening) (s : SessionData) (w : Worker) (use_tls : Bool)
      → Handling sock w0 s w
      → Handled sock w0 (
          if use_tls
          then after_accept sock opening (do_tls_handshake sock opening.accept s w)
          else establish sock opening s w)
  accept-Handled opening s w true h =
      after_accept-Handled opening s _ (do_tls_handshake-Shaken opening.accept s w h)
  accept-Handled opening s w false h = establish-Handled opening s w h
