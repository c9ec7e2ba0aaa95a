-- ===== src/Events/Handshake.antt =====
-- The TLS handshake and the new connections of src/worker.cc, and the dispatch of an event in
-- `Worker::run`.
use mathlib.Core.Option.{some_inj}
use h2_server.Prelude.{
  ℕ, not, ◌&&◌, ◌≡◌, refl, ◌||◌, length, take, Bytes, bytes, same, Bool, true, false, Option, none,
  some, List, [], ◌∷◌, ◌++◌, if◌then◌else◌, ◌==◌,
}
use h2_server.Connection.{
  SessionState, connecting, disconnecting, tls_handshaking, establishing, established, SessionData,
  should_disconnect, update_ssl_handshake_events,
}
use h2_server.Events.{
  Worker, no_traffic, Wants, Results, apply, update_events, disconnect_from_client, store,
  handle_events,
}

-- `SSL_accept`: it succeeds with the protocol that was selected, wants to read or to write, or fails.
pub data SslAccept : Type 0 where
  accepted : Option Bytes → SslAccept
  accept_wants : Bool → Bool → SslAccept
  accept_failed : SslAccept

-- The results of the calls for a handshake, or for a new connection: whether `init_session_data` and
-- `nghttp2_submit_settings` return 0, whether `SSL_new` gives an object, what `SSL_accept` does, and what is wanted at the end.
pub record Opening : Type 0 where
  pub initialised : Bool
  pub ssl_made : Bool
  pub accept : SslAccept
  pub settings_submitted : Bool
  pub wants : Wants

-- The test of the null pointer, of the length and of the two bytes.
unfoldable pub validate_alpn : Option Bytes → Bool
unfolding same
validate_alpn none = false
validate_alpn (some alpn_proto) =
    not (not (length alpn_proto == 2) || not (same (bytes "h2") (take 2 alpn_proto)))

unfoldable pub establish_connection : Bool → SessionState
establish_connection false = disconnecting
establish_connection true = established

unfoldable pub do_tls_handshake :
    ℕ → SslAccept → SessionData → Worker → SessionState × SessionData × Worker
unfolding validate_alpn apply update_ssl_handshake_events
do_tls_handshake sock (accepted selected) s w =
    (if validate_alpn selected then establishing else disconnecting, s, w)
do_tls_handshake sock (accept_wants want_read want_write) s w =
    let (s', w') = apply sock (update_ssl_handshake_events want_read want_write s) w in
    (tls_handshaking, s', w')
do_tls_handshake sock accept_failed s w = (disconnecting, s, w)

-- The settings are submitted and the events watched; the object stays in the map.
unfoldable pub establish : ℕ → Opening → SessionData → Worker → Worker
unfolding establish_connection apply update_events disconnect_from_client store
establish sock opening s w =
    let session_state = establish_connection opening.settings_submitted in
    if should_disconnect session_state
    then disconnect_from_client sock w
    else let (s', w') =
        apply sock (update_events opening.wants (record s { state = session_state }) w.use_tls) w in
      store sock s' w'

-- `handle_tls_handshake`, from what `do_tls_handshake` returns.
unfoldable pub after_handshake : ℕ → Opening → SessionState × SessionData × Worker → Worker
unfolding disconnect_from_client store establish
after_handshake sock opening (disconnecting, s, w) = disconnect_from_client sock w
after_handshake sock opening (tls_handshaking, s, w) = store sock s w
after_handshake sock opening (_, s, w) = establish sock opening s w

unfoldable pub handle_tls_handshake : ℕ → Opening → SessionData → Worker → Worker
unfolding do_tls_handshake after_handshake
handle_tls_handshake sock opening s w =
    after_handshake sock opening (do_tls_handshake sock opening.accept s w)

-- `handle_tls_accept`, from what `do_tls_handshake` returns; where it returns true, the rest of the round
-- of `handle_new_connections` follows.
unfoldable pub after_accept : ℕ → Opening → SessionState × SessionData × Worker → Worker
unfolding disconnect_from_client store establish
after_accept sock opening (disconnecting, s, w) = disconnect_from_client sock w
after_accept sock opening (tls_handshaking, s, w) =
    store sock (record s { state = tls_handshaking }) w
after_accept sock opening (_, s, w) = establish sock opening s w

abbrev pub new_session : SessionData
new_session = record { output_buffer = []; input_buffer = []; events = 0; state = connecting }

-- The bytes of a new connection.
unfoldable pub forget_traffic : ℕ → Worker → Worker
forget_traffic sock w = record w {
  traffic = λ other. if sock == other then no_traffic else w.traffic other;
}

-- A round of the loop of `handle_new_connections` behind `dequeue_sock`, where `SSL_new` gives an object.
-- A descriptor that the kernel has just given has no entry in the map, so `emplace` makes one.
unfoldable pub open_connection : ℕ → Opening → Worker → Worker
unfolding store forget_traffic do_tls_handshake after_accept establish
open_connection sock opening w =
    let stored = store sock new_session (forget_traffic sock w) in
    if opening.initialised
    then (if w.use_tls
        then after_accept sock opening (do_tls_handshake sock opening.accept new_session stored)
        else establish sock opening new_session stored)
    else record w { closed = w.closed ++ sock ∷ [] }

-- The round; `none` is the null pointer of `SSL_new`, which `SSL_set_fd` is called with.
unfoldable pub handle_new_connection : ℕ → Opening → Worker → Option Worker
unfolding open_connection
handle_new_connection sock opening w =
    if opening.initialised && (w.use_tls && not opening.ssl_made)
    then none
    else some (open_connection sock opening w)

pub handle_new_connection-made :
    (sock : ℕ) (opening : Opening) (w : Worker)
    → opening.ssl_made ≡ true
    → handle_new_connection sock opening w ≡ some (open_connection sock opening w)
unfolding handle_new_connection
handle_new_connection-made sock opening w made = by_results opening.initialised w.use_tls
  where
    by_results :
        (a b : Bool)
        → ◌≡◌ {A = Option Worker}
            (if a && (b && not opening.ssl_made)
              then none
              else some (open_connection sock opening w))
            (some (open_connection sock opening w))
    by_results false b = refl
    by_results true false = refl
    by_results true true = rw made refl

pub handle_new_connection-some :
    (sock : ℕ) (opening : Opening) (w w' : Worker)
    → handle_new_connection sock opening w ≡ some w'
    → open_connection sock opening w ≡ w'
unfolding handle_new_connection
handle_new_connection-some sock opening w w' e =
    by_test (opening.initialised && (w.use_tls && not opening.ssl_made)) e
  where
    by_test :
        (b : Bool)
        → ◌≡◌ {A = Option Worker}
            (if b then none else some (open_connection sock opening w))
            (some w')
        → open_connection sock opening w ≡ w'
    by_test true e = absurd cc
    by_test false e = some_inj.0 e

-- An event of `epoll_wait` on a client's socket, or a queued socket.
pub data Event : Type 0 where
  new_socket : ℕ → Opening → Event
  socket_event : ℕ → ℕ → Results → Opening → Event

-- The branch for a client's socket.
unfoldable pub dispatch_session :
    ℕ → ℕ → Results → Opening → Option SessionData → Worker → Option Worker
unfolding handle_tls_handshake handle_events
dispatch_session sock ev results opening none w = some w
dispatch_session sock ev results opening (some s) w = elim (s.state) [
  | tls_handshaking ↦ some (handle_tls_handshake sock opening s w)
  | _ ↦ handle_events sock results ev s w
]

unfoldable pub handle : Event → Worker → Option Worker
unfolding handle_new_connection dispatch_session
handle (new_socket sock opening) w = handle_new_connection sock opening w
handle (socket_event sock ev results opening) w =
    dispatch_session sock ev results opening (w.session_map sock) w

unfoldable pub handle_all : List Event → Worker → Option Worker
unfolding handle
handle_all [] w = some w
handle_all (event ∷ events) w = elim (handle event w) [
  | none ↦ none
  | some w' ↦ handle_all events w'
]
