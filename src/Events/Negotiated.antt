-- ===== src/Events/Negotiated.antt =====
-- Over TLS a session is established for HTTP/2 only.
use h2_server.Prelude.{
  ℕ, ◌≡◌, ◌≢◌, refl, sym, ap, subst, ◌∙◌, Bytes, bytes, eq_of_same, Bool, true, false, Option, none,
  some, same, arith, [], ◌∷◌, ◌++◌, if◌then◌else◌,
}
use h2_server.Alpn.{is_alpn_h2_selected}
use h2_server.Connection.{
  SessionState, disconnecting, tls_handshaking, establishing, established, SessionData,
  update_ssl_handshake_events,
}
use h2_server.Events.{Worker, apply, disconnect_from_client, store}
use h2_server.Events.Watching.{put_here}
use h2_server.Events.Awake.{apply-session}
use h2_server.Events.Openings.{handshake-Updates}
use h2_server.Events.Handshake.{
  SslAccept, accepted, accept_wants, accept_failed, Opening, validate_alpn, do_tls_handshake,
  establish, after_handshake, handle_tls_handshake, after_accept, new_session, open_connection,
  handle_new_connection, handle_new_connection-some, forget_traffic,
}

-- The protocol that was agreed on.
abbrev IsH2 : SslAccept → Type 0
IsH2 accept = accept ≡ accepted (some (bytes "h2"))

-- If the session is in the map and established, the protocol is HTTP/2.
abbrev OnlyH2 : ℕ → SslAccept → Worker → Type 0
OnlyH2 sock accept w =
    (s : SessionData) → w.session_map sock ≡ some s → s.state ≡ established → IsH2 accept

-- The test of the worker and the one of src/ssl_ctx.cc agree.
validate_alpn-is_alpn_h2_selected :
    (selected : Option Bytes) → validate_alpn selected ≡ is_alpn_h2_selected selected
unfolding validate_alpn is_alpn_h2_selected same
validate_alpn-is_alpn_h2_selected none = refl
validate_alpn-is_alpn_h2_selected (some []) = refl
validate_alpn-is_alpn_h2_selected (some (c ∷ [])) = ground arith
validate_alpn-is_alpn_h2_selected (some (c ∷ (d ∷ []))) = ground arith
validate_alpn-is_alpn_h2_selected (some (c ∷ (d ∷ (e ∷ rest)))) = ground arith

validate_alpn-h2 :
    (selected : Option Bytes) → validate_alpn selected ≡ true → selected ≡ some (bytes "h2")
unfolding validate_alpn is_alpn_h2_selected
validate_alpn-h2 none e = absurd cc
validate_alpn-h2 (some alpn_proto) e = ap some (
    eq_of_same alpn_proto (bytes "h2")
      (sym (validate_alpn-is_alpn_h2_selected (some alpn_proto)) ∙ e))

module _ (sock : ℕ) (accept : SslAccept) where
  unmapped-OnlyH2 : (w : Worker) → w.session_map sock ≡ none → OnlyH2 sock accept w
  unmapped-OnlyH2 w e s there now = absurd cc

  disconnected-OnlyH2 : (w : Worker) → OnlyH2 sock accept (disconnect_from_client sock w)
  unfolding disconnect_from_client
  disconnected-OnlyH2 w =
      unmapped-OnlyH2 (disconnect_from_client sock w) (put_here sock none w.session_map)

  stored-OnlyH2 :
      (s : SessionData) (w : Worker) → s.state ≢ established → OnlyH2 sock accept (store sock s w)
  unfolding store
  stored-OnlyH2 s w ne s' e now =
      let stored : some s ≡ some s' = sym (put_here sock (some s) w.session_map) ∙ e in
      let this : s ≡ s' = cc in absurd (ne (ap (λ (x : SessionData). x.state) this ∙ now))

module _ (sock : ℕ) (opening : Opening) (s : SessionData) (w : Worker) where
  accepted-h2 :
      (next : SessionState × SessionData × Worker → Worker) (selected : Option Bytes)
      → next (disconnecting, s, w) ≡ disconnect_from_client sock w
      → OnlyH2 sock
          (accepted selected)
          (next (if validate_alpn selected then establishing else disconnecting, s, w))
  accepted-h2 next selected e = by_test (validate_alpn selected) refl
    where
      by_test :
          (b : Bool)
          → validate_alpn selected ≡ b
          → OnlyH2 sock (accepted selected) (next (if b then establishing else disconnecting, s, w))
      by_test true valid = λ s' there now. ap accepted (validate_alpn-h2 selected valid)
      by_test false valid =
          subst (OnlyH2 sock (accepted selected)) (sym e)
            (disconnected-OnlyH2 sock (accepted selected) w)

  handshake-OnlyH2 :
      (accept : SslAccept)
      → s.state ≡ tls_handshaking
      → OnlyH2 sock accept (after_handshake sock opening (do_tls_handshake sock accept s w))
  unfolding after_handshake do_tls_handshake
  handshake-OnlyH2 (accepted selected) before =
      accepted-h2 (after_handshake sock opening) selected refl
  handshake-OnlyH2 (accept_wants want_read want_write) before =
      let r = update_ssl_handshake_events want_read want_write s in
      let state : (apply sock r w).0.state ≡ s.state =
        ap (λ (x : SessionData). x.state) (apply-session sock r w)
        ∙ (handshake-Updates want_read want_write s).1 in
      stored-OnlyH2 sock (accept_wants want_read want_write) (apply sock r w).0 (apply sock r w).1
        (λ e. absurd (not_yet (sym (state ∙ before) ∙ e)))
    where
      not_yet : tls_handshaking ≡ established → ⊥
      not_yet e = cc
  handshake-OnlyH2 accept_failed before = disconnected-OnlyH2 sock accept_failed w

  accept-OnlyH2 :
      (accept : SslAccept)
      → OnlyH2 sock accept (after_accept sock opening (do_tls_handshake sock accept s w))
  unfolding after_accept do_tls_handshake
  accept-OnlyH2 (accepted selected) = accepted-h2 (after_accept sock opening) selected refl
  accept-OnlyH2 (accept_wants want_read want_write) =
      let r = apply sock (update_ssl_handshake_events want_read want_write s) w in
      stored-OnlyH2 sock (accept_wants want_read want_write)
        (record r.0 { state = tls_handshaking }) r.1 (λ e. absurd cc)
  accept-OnlyH2 accept_failed = disconnected-OnlyH2 sock accept_failed w

-- Over TLS, a session that is in the map and established, right behind a handshake that goes on or right
-- behind a new connection on a socket that had no session, has agreed on the protocol h2: `SSL_accept`
-- has succeeded, and `h2` is the protocol that was selected.
pub tls-established_h2 :
    (sock : ℕ) (opening : Opening) (s : SessionData) (w : Worker)
    → s.state ≡ tls_handshaking
    → w.use_tls ≡ true
    → w.session_map sock ≡ none
    → ((s' : SessionData)
        → (handle_tls_handshake sock opening s w).session_map sock ≡ some s'
        → s'.state ≡ established
        → opening.accept ≡ accepted (some (bytes "h2")))
      × ((w' : Worker) (s' : SessionData)
          → handle_new_connection sock opening w ≡ some w'
          → w'.session_map sock ≡ some s'
          → s'.state ≡ established
          → opening.accept ≡ accepted (some (bytes "h2")))
unfolding handle_tls_handshake open_connection forget_traffic
tls-established_h2 sock opening s w before tls fresh = (
  handshake-OnlyH2 sock opening s w opening.accept before,
  λ w' s' opened there. new_connection opening.initialised w.use_tls tls s' (
      ap (λ (v : Worker). v.session_map sock) (handle_new_connection-some sock opening w w' opened)
      ∙ there),
)
  where
    stored : Worker
    stored = store sock new_session (forget_traffic sock w)

    new_connection :
        (b use_tls : Bool)
        → use_tls ≡ true
        → OnlyH2 sock opening.accept (
            if b
            then (if use_tls
                then after_accept sock opening
                    (do_tls_handshake sock opening.accept new_session stored)
                else establish sock opening new_session stored)
            else record w { closed = w.closed ++ sock ∷ [] })
    new_connection true true e = accept-OnlyH2 sock opening new_session stored opening.accept
    new_connection true false e = absurd cc
    new_connection false use_tls e =
        unmapped-OnlyH2 sock opening.accept (record w { closed = w.closed ++ sock ∷ [] }) fresh
