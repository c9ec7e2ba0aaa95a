-- ===== src/Events/Awake.antt =====
-- `update_events` leaves a session with events to wait for, unless the session is to be closed.
use h2_server.Prelude.{
  ℕ, ◌≡◌, ◌≢◌, refl, sym, ap, subst, ◌∙◌, Bool, true, false, not, ◌&&◌, ◌||◌, Option, none, some,
  if◌then◌else◌, arith,
}
use h2_server.Connection.{
  IoResult, shutdown, SessionData, is_empty, should_disconnect, update_event, update_events_h2c,
  update_events_tls, should_close_after_disconnect,
}
use h2_server.Connection.Interest.{
  Watched, Interested, update_event-if, update_event-Watched, update_events_h2c-Interested,
  update_events_tls-Interested,
}
use h2_server.Events.{Worker, Wants, apply, update_events, finish_io, is_shutdown}
use h2_server.Events.Watching.{Settled, Handling, apply-Handling}

-- Every `update_events` is one `update_event`.
abbrev pub Updates : SessionData → SessionData × Option ℕ → Type 0
Updates s r = Watched s.events r × (r.0.state ≡ s.state) × (r.0.output_buffer ≡ s.output_buffer)

pub update_event-Updates : (events : ℕ) (s : SessionData) → Updates s (update_event events s)
unfolding update_event
update_event-Updates events s = (update_event-Watched events s, ground arith, ground arith)

pub update_events-Updates :
    (wants : Wants) (s : SessionData) (use_tls : Bool) → Updates s (update_events wants s use_tls)
unfolding update_events update_events_h2c update_events_tls
update_events-Updates wants s true =
    subst (Updates s) (update_event-if (should_disconnect s.state) _ _ s) (update_event-Updates _ s)
update_events-Updates wants s false =
    subst (Updates s) (update_event-if (should_disconnect s.state) _ _ s) (update_event-Updates _ s)

closing :
    (disconnect want_read ssl_write want_write empty : Bool)
    → (ssl_write || (want_write || not empty)) ≡ false
    → (not disconnect && (want_read || not (ssl_write || (want_write || not empty)))) ≡ false
    → (if disconnect then not want_write && empty else false) ≡ true
closing disconnect want_read true want_write empty e f = absurd cc
closing disconnect want_read false true empty e f = absurd cc
closing disconnect want_read false false false e f = absurd cc
closing true want_read false false true e f = refl
closing false true false false true e f = absurd cc
closing false false false false true e f = absurd cc

-- If nothing is watched, the session is to be closed.
asleep :
    (want_read ssl_write want_write : Bool) (s s' : SessionData)
    → Interested want_read
        (ssl_write || (want_write || not (is_empty s.output_buffer)))
        s.state
        s'.events
    → s'.state ≡ s.state
    → s'.output_buffer ≡ s.output_buffer
    → s'.events ≡ 0
    → should_close_after_disconnect want_write s' ≡ true
unfolding should_close_after_disconnect
asleep r sw w s s' i state buffer zero =
    let none_watched =
      subst (Interested r (sw || (w || not (is_empty s.output_buffer))) s.state) zero i in
    rw (state, buffer)
      (closing (should_disconnect s.state) r sw w (is_empty s.output_buffer) (sym none_watched.0)
        (sym none_watched.1))

update_events-asleep :
    (wants : Wants) (s : SessionData) (use_tls : Bool)
    → let r = update_events wants s use_tls in
      r.0.state ≡ s.state
      → r.0.output_buffer ≡ s.output_buffer
      → r.0.events ≡ 0
      → should_close_after_disconnect wants.write r.0 ≡ true
unfolding update_events
update_events-asleep wants s true =
    asleep (wants.ssl_read || wants.read) wants.ssl_write wants.write s _
      (update_events_tls-Interested wants.ssl_read wants.ssl_write wants.read wants.write s).1
update_events-asleep wants s false =
    asleep wants.read false wants.write s _
      (update_events_h2c-Interested wants.read wants.write s).1

pub apply-session : (sock : ℕ) (r : SessionData × Option ℕ) (w : Worker) → (apply sock r w).0 ≡ r.0
unfolding apply
apply-session sock (s, none) w = refl
apply-session sock (s, some events) w = refl

-- A session that is not to be closed waits for events.
pub apply-awake :
    (sock : ℕ) (wants : Wants) (s : SessionData) (w : Worker) (use_tls : Bool)
    → let s' = (apply sock (update_events wants s use_tls) w).0 in
      should_close_after_disconnect wants.write s' ≡ false → s'.events ≢ 0
apply-awake sock wants s w use_tls stays zero =
    let r = update_events wants s use_tls in
    let u = update_events-Updates wants s use_tls in
    let session : (apply sock r w).0 ≡ r.0 = apply-session sock r w in
    let nothing : r.0.events ≡ 0 = sym (ap (λ (x : SessionData). x.events) session) ∙ zero in
    let closes = update_events-asleep wants s use_tls u.1 u.2 nothing in
    let remains : should_close_after_disconnect wants.write r.0 ≡ false =
      sym (ap (should_close_after_disconnect wants.write) session) ∙ stays in
    absurd cc

pub apply-state :
    (sock : ℕ) (wants : Wants) (s : SessionData) (w : Worker) (use_tls : Bool)
    → (apply sock (update_events wants s use_tls) w).0.state ≡ s.state
apply-state sock wants s w use_tls =
    ap (λ (x : SessionData). x.state) (apply-session sock (update_events wants s use_tls) w)
    ∙ (update_events-Updates wants s use_tls).1

module _ (sock : ℕ) (w0 : Worker) where
  -- A result that closes the connection, or a session that stays and waits for events.
  abbrev pub GoesOn : IoResult × SessionData × Worker → Type 0
  GoesOn (result, s, w) =
      Handling sock w0 s w × (is_shutdown result ≡ false → (s.events ≢ 0) × Settled s.state)

  close_if :
      (b : Bool) (result : IoResult) (s : SessionData) (w : Worker)
      → Handling sock w0 s w
      → (b ≡ false → (s.events ≢ 0) × Settled s.state)
      → GoesOn (if b then shutdown else result, s, w)
  close_if true result s w h on = (h, λ e. absurd cc)
  close_if false result s w h on = (h, λ e. on refl)

  pub finish_io-GoesOn :
      (wants : Wants) (result : IoResult) (s : SessionData) (w : Worker)
      → Handling sock w0 s w
      → Settled s.state
      → GoesOn (finish_io sock wants result s w)
  unfolding finish_io
  finish_io-GoesOn wants result s w h settled =
      let r = update_events wants s w.use_tls in
      close_if _ result _ _
        (apply-Handling sock w0 s r w h (update_events-Updates wants s w.use_tls).0)
        (λ stays. (
          apply-awake sock wants s w w.use_tls stays,
          subst Settled (sym (apply-state sock wants s w w.use_tls)) settled,
        ))
