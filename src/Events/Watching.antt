-- ===== src/Events/Watching.antt =====
-- What handling one event does to its socket: the session is closed, or stays in the map and is watched.
use h2_server.Prelude.{
  ℕ, ◌≡◌, ◌≢◌, refl, sym, ap, ◌∙◌, false, Option, none, some, [], ◌∷◌, ◌++◌, ◌==◌, ◌⊎◌, inl, inr,
  ==_refl,
}
use h2_server.Connection.{SessionState, connecting, establishing, SessionData}
use h2_server.Connection.Interest.{Watched}
use h2_server.Events.{Worker, put, set_event, apply, disconnect_from_client, store}

-- A state in which a session waits for events.
abbrev pub Settled : SessionState → Type 0
Settled connecting = ⊥
Settled establishing = ⊥
Settled _ = Unit

pub put_here : {A : Type 0} (sock : ℕ) (a : Option A) (f : ℕ → Option A) → put sock a f sock ≡ a
put_here sock a f = rw (==_refl sock) refl

put_elsewhere :
    {A : Type 0} (sock other : ℕ) (a : Option A) (f : ℕ → Option A)
    → (sock == other) ≡ false
    → put sock a f other ≡ f other
put_elsewhere sock other a f e = rw e refl

-- While an event for the socket is handled, from `w0` on: nothing has been closed, nothing has changed
-- for another socket, and epoll watches the socket as its session says, or not yet.
pub record Handling (sock : ℕ) (w0 : Worker) (s : SessionData) (w : Worker) : Type 0 where
  pub same_map : w.session_map ≡ w0.session_map
  pub same_closed : w.closed ≡ w0.closed
  pub elsewhere : (other : ℕ) → (sock == other) ≡ false → w.interest other ≡ w0.interest other
  pub watched : (w.interest sock ≡ some s.events) ⊎ ((w.interest sock ≡ none) × (s.events ≡ 0))

-- At the end: gone and closed once, or in the map, watched and settled.
pub data Outcome (sock : ℕ) (w0 w : Worker) : Type 0 where
  gone :
      w.session_map sock ≡ none
      → w.interest sock ≡ none
      → w.closed ≡ w0.closed ++ sock ∷ []
      → Outcome sock w0 w
  kept :
      (s : SessionData)
      → w.session_map sock ≡ some s
      → w.interest sock ≡ some s.events
      → s.events ≢ 0
      → Settled s.state
      → w.closed ≡ w0.closed
      → Outcome sock w0 w

pub record Handled (sock : ℕ) (w0 w : Worker) : Type 0 where
  pub here : Outcome sock w0 w
  pub other_map : (other : ℕ) → (sock == other) ≡ false → w.session_map other ≡ w0.session_map other
  pub other_interest : (other : ℕ) → (sock == other) ≡ false → w.interest other ≡ w0.interest other

module _ (sock : ℕ) (w0 : Worker) where
  pub keep-Handling :
      (s s' : SessionData) (w : Worker)
      → Handling sock w0 s w
      → s'.events ≡ s.events
      → Handling sock w0 s' w
  keep-Handling s s' w h e = record {
    same_map = h.same_map;
    same_closed = h.same_closed;
    elsewhere = h.elsewhere;
    watched = elim (h.watched) [ inl i ↦ inl (i ∙ ap some (sym e)) | inr p ↦ inr (p.0, e ∙ p.1) ];
  }

  pub apply-Handling :
      (s : SessionData) (r : SessionData × Option ℕ) (w : Worker)
      → Handling sock w0 s w
      → Watched s.events r
      → Handling sock w0 (apply sock r w).0 (apply sock r w).1
  unfolding apply set_event
  apply-Handling s (s', none) w h e = keep-Handling s s' w h e
  apply-Handling s (s', some events) w h e = record {
    same_map = h.same_map;
    same_closed = h.same_closed;
    elsewhere =
        λ other ne. put_elsewhere sock other (some events) w.interest ne ∙ h.elsewhere other ne;
    watched = inl (put_here sock (some events) w.interest ∙ ap some (sym e));
  }

  pub disconnect-Handled :
      (s : SessionData) (w : Worker)
      → Handling sock w0 s w
      → Handled sock w0 (disconnect_from_client sock w)
  unfolding disconnect_from_client
  disconnect-Handled s w h = record {
    here =
        gone (put_here sock none w.session_map) (put_here sock none w.interest)
          (ap (λ l. l ++ sock ∷ []) h.same_closed);
    other_map = λ other ne.
        put_elsewhere sock other none w.session_map ne
        ∙ ap (λ (m : ℕ → Option SessionData). m other) h.same_map;
    other_interest = λ other ne. put_elsewhere sock other none w.interest ne ∙ h.elsewhere other ne;
  }

  watched_now :
      (s : SessionData) (w : Worker)
      → Handling sock w0 s w
      → s.events ≢ 0
      → w.interest sock ≡ some s.events
  watched_now s w h awake = elim (h.watched) [ inl e ↦ e | inr p ↦ absurd (awake p.1) ]

  pub store-Handled :
      (s : SessionData) (w : Worker)
      → Handling sock w0 s w
      → s.events ≢ 0
      → Settled s.state
      → Handled sock w0 (store sock s w)
  unfolding store
  store-Handled s w h awake settled = record {
    here =
        kept s (put_here sock (some s) w.session_map) (watched_now s w h awake) awake settled
          h.same_closed;
    other_map = λ other ne.
        put_elsewhere sock other (some s) w.session_map ne
        ∙ ap (λ (m : ℕ → Option SessionData). m other) h.same_map;
    other_interest = h.elsewhere;
  }
