-- ===== src/Events/Runs.antt =====
-- The sessions of a worker, over any run of events.
use h2_server.Prelude.{
  ℕ, ◌+◌, ◌≤◌, ◌≡◌, refl, sym, ap, subst, ◌∙◌, Bool, true, false, Option, none, some, List, [], ◌∷◌,
  All, ◌==◌, if◌then◌else◌, arith, inl, inr, Bool-cases, ==_refl,
}
use h2_server.Connection.{IsSent, SessionState, tls_handshaking, SessionData}
use h2_server.Events.{Worker, handle_events, Results, store}
use h2_server.Events.Handshake.{
  handle_tls_handshake, Opening, new_session, open_connection, handle_new_connection-made,
  forget_traffic, Event, new_socket, socket_event, dispatch_session, handle, handle_all,
}
use h2_server.Events.Watching.{Handling}
use h2_server.Events.Handling.{Ends, handle_events-Ends}
use h2_server.Events.Openings.{handle_tls_handshake-Handled, accept-Handled}
use h2_server.Events.Sessions.{
  Waits, Sound, times, times-append, accounted, new_sockets, Handled-Sound, Handled-accounted,
  Handled-closed,
}

-- The kernel gives a new socket a descriptor that is not open, and `SSL_new` gives an object for it;
-- `nghttp2_session_mem_send2` does not fail.
abbrev pub CanHappen : Event → Worker → Type 0
CanHappen (new_socket sock opening) w = (w.session_map sock ≡ none) × (opening.ssl_made ≡ true)
CanHappen (socket_event sock ev results opening) w = All IsSent results.chunks

abbrev pub GoesOnWith : Option Worker → (Worker → Type 0) → Type 0
GoesOnWith none P = Unit
GoesOnWith (some w) P = P w

abbrev pub CanAllHappen : List Event → Worker → Type 0
CanAllHappen [] w = Unit
CanAllHappen (event ∷ events) w =
    CanHappen event w × GoesOnWith (handle event w) (λ w'. CanAllHappen events w')

-- The invariant is kept, the sockets are accounted for, and no close is undone.
abbrev pub Keeps : List Event → Worker → Worker → Type 0
Keeps events w w' =
    Sound w'
    × ((sock : ℕ) → accounted sock w' ≡ accounted sock w + times sock (new_sockets events))
    × ((sock : ℕ) → times sock w.closed ≤ times sock w'.closed)

ended :
    (sock : ℕ) (w : Worker) (s : SessionData) (results : Results) (o : Option Worker)
    (sent : All IsSent results.chunks)
    → Sound w
    → w.session_map sock ≡ some s
    → Ends sock results w sent o
    → (w' : Worker) × (o ≡ some w') × Keeps [] w w'
unfolding Sound
ended sock w s results none sent sound there h = absurd h
ended sock w s results (some w') sent sound there h = (
  w',
  refl,
  (
    Handled-Sound sock w w' h (λ other e. sound other),
    λ other. Handled-accounted sock w w' h s there other ∙ omega arith,
    Handled-closed sock w w' h,
  ),
)

start-Handling :
    (sock : ℕ) (w : Worker) (s : SessionData)
    → w.interest sock ≡ some s.events
    → Handling sock w s w
start-Handling sock w s e = record {
  same_map = refl;
  same_closed = refl;
  elsewhere = λ other ne. refl;
  watched = inl e;
}

dispatch-Keeps :
    (sock ev : ℕ) (results : Results) (opening : Opening) (w : Worker) (o : Option SessionData)
    → Sound w
    → w.session_map sock ≡ o
    → All IsSent results.chunks
    → (w' : Worker) × (dispatch_session sock ev results opening o w ≡ some w') × Keeps [] w w'
unfolding dispatch_session Sound
dispatch-Keeps sock ev results opening w none sound there sent =
    (w, refl, (sound, λ other. omega arith, λ other. omega arith))
dispatch-Keeps sock ev results opening w (some s) sound there sent =
    let waits : Waits (some s) (w.interest sock) =
      subst (λ o. Waits o (w.interest sock)) there (sound sock) in
    let h = start-Handling sock w s waits.0 in
    by_state
      (ended sock w s results (some (handle_tls_handshake sock opening s w)) sent sound there
        (handle_tls_handshake-Handled sock w opening s w h waits.2))
      (ended sock w s results (handle_events sock results ev s w) sent sound there
        (handle_events-Ends sock results w sent ev s w h waits.1 waits.2))
      s.state
  where
    Leads : Option Worker → Type 0
    Leads o = (w' : Worker) × (o ≡ some w') × Keeps [] w w'

    by_state :
        Leads (some (handle_tls_handshake sock opening s w))
        → Leads (handle_events sock results ev s w)
        → (state : SessionState)
        → Leads (elim state [
          | tls_handshaking ↦ some (handle_tls_handshake sock opening s w)
          | _ ↦ handle_events sock results ev s w
        ])
    by_state a b tls_handshaking = a
    by_state a b _ = b

stored_accounted :
    (sock : ℕ) (w : Worker)
    → w.session_map sock ≡ none
    → (other : ℕ)
    → accounted other (store sock new_session w)
      ≡ accounted other w + ((if sock == other then 1 else 0) + 0)
unfolding store
stored_accounted sock w fresh other = elim (Bool-cases (sock == other)) [
  | inl e ↦
      let same_sock : sock ≡ other = ground arith in
      let absent : w.session_map other ≡ none = ap w.session_map (sym same_sock) ∙ fresh in
      rw (e, absent) (omega arith)
  | inr e ↦ rw e (omega arith)
]

pub new_connection-Keeps :
    (sock : ℕ) (opening : Opening) (w : Worker)
    → Sound w
    → w.session_map sock ≡ none
    → Keeps (new_socket sock opening ∷ []) w (open_connection sock opening w)
unfolding open_connection store forget_traffic Sound
new_connection-Keeps sock opening w sound fresh = by_result opening.initialised
  where
    stored : Worker
    stored = store sock new_session (forget_traffic sock w)

    handling : Handling sock stored new_session stored
    handling = record {
      same_map = refl;
      same_closed = refl;
      elsewhere = λ other ne. refl;
      watched = inr (subst (λ o. Waits o (w.interest sock)) fresh (sound sock), refl);
    }

    by_result :
        (b : Bool)
        → Keeps
            (new_socket sock opening ∷ [])
            w
            (open_connection sock (record opening { initialised = b }) w)
    by_result true =
        let h = accept-Handled sock stored opening new_session stored w.use_tls handling in
        (
          Handled-Sound sock stored _ h (λ other ne. rw ne (sound other)),
          λ other.
              Handled-accounted sock stored _ h new_session (rw (==_refl sock) refl) other
              ∙ stored_accounted sock w fresh other,
          Handled-closed sock stored _ h,
        )
    by_result false = (
      sound,
      λ other. rw (times-append other w.closed (sock ∷ [])) (omega arith),
      λ other. rw (times-append other w.closed (sock ∷ [])) (omega arith),
    )

pub handle-Keeps :
    (event : Event) (w : Worker)
    → Sound w
    → CanHappen event w
    → (w' : Worker) × (handle event w ≡ some w') × Keeps (event ∷ []) w w'
unfolding handle
handle-Keeps (new_socket sock opening) w sound fresh = (
  open_connection sock opening w,
  handle_new_connection-made sock opening w fresh.1,
  new_connection-Keeps sock opening w sound fresh.0,
)
handle-Keeps (socket_event sock ev results opening) w sound fresh =
    dispatch-Keeps sock ev results opening w (w.session_map sock) sound refl fresh

times-new_sockets :
    (sock : ℕ) (event : Event) (events : List Event)
    → times sock (new_sockets (event ∷ events))
      ≡ times sock (new_sockets (event ∷ [])) + times sock (new_sockets events)
times-new_sockets sock (new_socket x opening) events = omega arith
times-new_sockets sock (socket_event x ev results opening) events = omega arith

-- Let a worker be sound: `epoll_ctl` has been asked to watch each session in the map for the events that
-- the session records, which are some, the session's state is one in which it waits, and `epoll_ctl` has
-- been asked to watch no other socket. Let each new socket have no session when it comes, let `SSL_new`
-- give an object for it, and let `nghttp2_session_mem_send2` give no negative result. Then any run of
-- events returns, and leaves a sound worker.
-- For every socket, the number of its closes, and one if it has a session, have grown by as often as it
-- was new.
pub handle_all-Keeps :
    (events : List Event) (w : Worker)
    → Sound w
    → CanAllHappen events w
    → (w' : Worker) × (handle_all events w ≡ some w')
      × Sound w'
      × ((sock : ℕ) → accounted sock w' ≡ accounted sock w + times sock (new_sockets events))
unfolding handle_all
handle_all-Keeps [] w sound fresh = (w, refl, sound, λ sock. omega arith)
handle_all-Keeps (event ∷ events) w sound fresh =
    let (w1, ran, (sound1, count1, closed1)) = handle-Keeps event w sound fresh.0 in
    let fresh1 : CanAllHappen events w1 =
      subst (λ o. GoesOnWith o (λ v. CanAllHappen events v)) ran fresh.1 in
    let (w2, ran2, sound2, count2) = handle_all-Keeps events w1 sound1 fresh1 in
    (
      w2,
      rw (ran, handle_all) ran2,
      sound2,
      λ sock. omega (arith, count1 sock, count2 sock, times-new_sockets sock event events),
    )
