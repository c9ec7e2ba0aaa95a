-- ===== src/Connection/Interest.antt =====
-- The events that epoll watches for a connection.
use h2_server.Prelude.{
  ℕ, subst, sym, ◌≡◌, refl, Bool, true, false, not, ◌&&◌, ◌||◌, Option, none, some, arith, bit_or,
  if◌then◌else◌, ◌==◌,
}
use h2_server.Connection.{
  SessionData, SessionState, disconnecting, is_empty, epollin, epollout, should_disconnect,
  update_event, update_events_h2c, update_events_tls,
}

-- What epoll watches is what the session says.
abbrev pub Watched : ℕ → SessionData × Option ℕ → Type 0
Watched before (s, none) = s.events ≡ before
Watched before (s, some events) = s.events ≡ events

pub update_event-Watched : (events : ℕ) (s : SessionData) → Watched s.events (update_event events s)
unfolding update_event
update_event-Watched events s = ground arith

abbrev pub writes : ℕ → Bool
writes events = (events == epollout) || (events == bit_or epollin epollout)

abbrev pub reads : ℕ → Bool
reads events = (events == epollin) || (events == bit_or epollin epollout)

-- The events for what is wanted.
abbrev pub Interested : Bool → Bool → SessionState → ℕ → Type 0
Interested want_read want_write state events =
    (writes events ≡ want_write)
    × (reads events ≡ (not (should_disconnect state) && (want_read || not want_write)))

pub update_event-events : (events : ℕ) (s : SessionData) → (update_event events s).0.events ≡ events
unfolding update_event
update_event-events events s = ground arith

choose :
    (want_read want_write : Bool) (state : SessionState)
    → Interested want_read want_write state (
        if should_disconnect state
        then if want_write then epollout else 0
        else let events =
            bit_or (if want_read then epollin else 0) (if want_write then epollout else 0) in
          if events == 0 then epollin else events)
choose true true disconnecting = (refl, refl)
choose true false disconnecting = (refl, refl)
choose false true disconnecting = (refl, refl)
choose false false disconnecting = (refl, refl)
choose true true _ = (refl, refl)
choose true false _ = (refl, refl)
choose false true _ = (refl, refl)
choose false false _ = (refl, refl)

-- What is proved of a session and its `epoll_ctl` call.
Set : Bool → Bool → SessionData → SessionData × Option ℕ → Type 0
Set want_read want_write s r =
    Watched s.events r × Interested want_read want_write s.state r.0.events

update_event-Set :
    (want_read want_write : Bool) (events : ℕ) (s : SessionData)
    → Interested want_read want_write s.state events
    → Set want_read want_write s (update_event events s)
unfolding Set
update_event-Set r w events s h = (
  update_event-Watched events s,
  subst (λ (e : ℕ). Interested r w s.state e) (sym (update_event-events events s)) h,
)

pub update_event-if :
    (b : Bool) (x y : ℕ) (s : SessionData)
    → update_event (if b then x else y) s ≡ (if b then update_event x s else update_event y s)
update_event-if true x y s = refl
update_event-if false x y s = refl

-- After `update_events_h2c` epoll watches the events that the session records. These have EPOLLOUT
-- exactly if nghttp2 wants to write or bytes wait in the output buffer; EPOLLIN never on a
-- connection that is being closed, and on any other exactly if nghttp2 wants to read or EPOLLOUT is
-- not watched.
pub update_events_h2c-Interested :
    (want_read want_write : Bool) (s : SessionData)
    → let r = update_events_h2c want_read want_write s in
      Watched s.events r
      × Interested want_read (want_write || not (is_empty s.output_buffer)) s.state r.0.events
unfolding update_events_h2c Set
update_events_h2c-Interested r w s =
    let out = w || not (is_empty s.output_buffer) in
    subst (Set r out s) (update_event-if (should_disconnect s.state) _ _ s)
      (update_event-Set r out _ s (choose r out s.state))

-- After `update_events_tls` epoll watches the events that the session records. These have EPOLLOUT
-- exactly if OpenSSL or nghttp2 wants to write or bytes wait in the output buffer; EPOLLIN never on
-- a connection that is being closed, and on any other exactly if OpenSSL or nghttp2 wants to read
-- or EPOLLOUT is not watched.
pub update_events_tls-Interested :
    (ssl_want_read ssl_want_write want_read want_write : Bool) (s : SessionData)
    → let r = update_events_tls ssl_want_read ssl_want_write want_read want_write s in
      Watched s.events r
      × Interested
          (ssl_want_read || want_read)
          (ssl_want_write || (want_write || not (is_empty s.output_buffer)))
          s.state
          r.0.events
unfolding update_events_tls Set
update_events_tls-Interested sr sw r w s =
    let out = sw || (w || not (is_empty s.output_buffer)) in
    subst (Set (sr || r) out s) (update_event-if (should_disconnect s.state) _ _ s)
      (update_event-Set (sr || r) out _ s (choose (sr || r) out s.state))
