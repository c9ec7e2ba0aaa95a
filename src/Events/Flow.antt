-- ===== src/Events/Flow.antt =====
-- The bytes of each connection of a worker, over any run of events.
pub mod Sides
pub mod Handling
pub mod Openings
pub mod Runs
use h2_server.Prelude.{
  ℕ, ◌≡◌, refl, sym, ap, subst, ◌∙◌, Bytes, bytes, Bool, true, false, not, ◌||◌, ◌&&◌, Option, none,
  some, List, [], ◌∷◌, ◌++◌, ◌==◌, if◌then◌else◌, arith, Bool-cases, inl, inr, bit_and,
  append_assoc, append-nil, ==_refl,
}
use h2_server.Connection.{
  SessionState, disconnecting, tls_handshaking, connecting, establishing, established, IoResult,
  success, shutdown, again, SessionData, is_empty, feed_input_buffer, feed_error,
  fill_output_buffer, epollin, epollout, should_disconnect,
}
use h2_server.Connection.Buffers.{feed_input_buffer-Conserves}
use h2_server.Events.{
  Worker, Traffic, no_traffic, add_traffic, bytes_made, bytes_in, Wants, Results, apply, set_event,
  update_events, fill_input_buffer, flush_output_buffer, called_back, is_shutdown, is_success,
  check_close_event, disconnect_from_client, store, finish_io, after_feed, after_fill, handle_read,
  after_flush, handle_write, read_part, write_part, end_part, after_write, after_read,
  handle_events,
}
use h2_server.Events.Flow.Sides.{fill-append, feed-output, flush-Split, update_events-buffers}

-- What came in is what nghttp2 has processed and what the input buffer holds; what nghttp2 has made is
-- what went out and what the output buffer holds.
abbrev pub Balanced : Traffic → Bytes → Bytes → Type 0
Balanced t input output = (t.fed ++ input ≡ t.received) × (t.sent ++ output ≡ t.made)

-- The buffers of a session that is gone were of some contents.
abbrev pub Balances : Option SessionData → Traffic → Type 0
Balances none t = (input : Bytes) × (output : Bytes) × Balanced t input output
Balances (some s) t = Balanced t s.input_buffer s.output_buffer

unfoldable pub Flows : Worker → Type 0
Flows w = (sock : ℕ) → Balances (w.session_map sock) (w.traffic sock)

abbrev pub FlowsAfter : Option Worker → Type 0
FlowsAfter none = Unit
FlowsAfter (some w) = Flows w

pub taken_in :
    (fed input received more : Bytes)
    → fed ++ input ≡ received
    → (fed ++ []) ++ (input ++ more) ≡ received ++ more
taken_in fed input received more e =
    rw (append-nil fed, ← append_assoc fed input more) (ap (λ x. x ++ more) e)

pub moved_on :
    (fed input received moved rest : Bytes)
    → fed ++ input ≡ received
    → moved ++ rest ≡ input
    → (fed ++ moved) ++ rest ≡ received ++ []
moved_on fed input received moved rest e m =
    rw (append-nil received) (append_assoc fed moved rest ∙ ap (◌++◌ fed) m ∙ e)

module _ (sock : ℕ) where
  -- While a session is handled: its own buffers balance, and those of all others.
  abbrev pub Flowing : SessionData → Worker → Type 0
  Flowing s w =
      Balanced (w.traffic sock) s.input_buffer s.output_buffer
      × ((other : ℕ) → (sock == other) ≡ false → Balances (w.session_map other) (w.traffic other))

  pub add_traffic-Flowing :
      (s s' : SessionData) (more : Traffic) (w : Worker)
      → Flowing s w
      → ((w.traffic sock).fed ++ more.fed) ++ s'.input_buffer
        ≡ (w.traffic sock).received ++ more.received
      → ((w.traffic sock).sent ++ more.sent) ++ s'.output_buffer
        ≡ (w.traffic sock).made ++ more.made
      → Flowing s' (add_traffic sock more w)
  unfolding add_traffic
  add_traffic-Flowing s s' more w f i o =
      (rw (==_refl sock) (i, o), λ other ne. rw ne (f.1 other ne))

  -- The same buffers.
  pub same-Flowing :
      (s s' : SessionData) (w : Worker)
      → s'.input_buffer ≡ s.input_buffer
      → s'.output_buffer ≡ s.output_buffer
      → Flowing s w
      → Flowing s' w
  same-Flowing s s' w i o f = ((rw i f.0.0, rw o f.0.1), f.1)

  pub apply-Flowing :
      (r : SessionData × Option ℕ) (w : Worker)
      → Flowing r.0 w
      → Flowing (apply sock r w).0 (apply sock r w).1
  unfolding apply set_event
  apply-Flowing (s, none) w f = f
  apply-Flowing (s, some events) w f = f

  pub disconnect-Flows :
      (s : SessionData) (w : Worker) → Flowing s w → Flows (disconnect_from_client sock w)
  unfolding disconnect_from_client Flows
  disconnect-Flows s w f other = elim (Bool-cases (sock == other)) [
    | inl e ↦ rw e (
      s.input_buffer,
      s.output_buffer,
      subst (λ (n : ℕ). Balanced (w.traffic n) s.input_buffer s.output_buffer) (ground arith) f.0,
    )
    | inr e ↦ rw e (f.1 other e)
  ]

  pub store-Flows : (s : SessionData) (w : Worker) → Flowing s w → Flows (store sock s w)
  unfolding store Flows
  store-Flows s w f other = elim (Bool-cases (sock == other)) [
    | inl e ↦ rw e (
        subst (λ (n : ℕ). Balanced (w.traffic n) s.input_buffer s.output_buffer) (ground arith) f.0)
    | inr e ↦ rw e (f.1 other e)
  ]

  pub update-Flowing :
      (wants : Wants) (s : SessionData) (w : Worker) (use_tls : Bool)
      → Flowing s w
      → let r = apply sock (update_events wants s use_tls) w in Flowing r.0 r.1
  update-Flowing wants s w use_tls f =
      let b = update_events-buffers wants s use_tls in
      apply-Flowing (update_events wants s use_tls) w
        (same-Flowing s (update_events wants s use_tls).0 w b.0 b.1 f)
