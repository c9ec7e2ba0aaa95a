-- ===== src/Events.antt =====
-- The sessions of a worker (src/worker.cc): the branch of `Worker::run` for a client's socket, with the
-- functions that it calls, and the loop over the queued sockets. What the kernel, OpenSSL and nghttp2
-- return while one event is handled is given with the event. The map of the sessions is a function; so
-- is what `epoll_ctl` has been asked for, without the flags EPOLLET and EPOLLRDHUP, which every call has.
-- Epoll has the calls of `epoll_ctl` and what they do to the kernel's list.
pub mod Handshake
pub mod Loops
pub mod Watching
pub mod Awake
pub mod Handling
pub mod Openings
pub mod Sessions
pub mod Runs
pub mod Arrivals
pub mod Flow
pub mod Negotiated
mod Tests
use h2_server.Prelude.{
  ℕ, Bytes, bytes, same, bit_and, Bool, true, false, not, ◌&&◌, ◌||◌, Option, none, some, List, [],
  ◌∷◌, ◌++◌, ◌==◌, if◌then◌else◌,
}
use h2_server.Connection.Buffers.{bytes_read, bytes_decrypted}
use h2_server.Connection.{
  SessionState, connecting, disconnecting, tls_handshaking, establishing, established, IoResult,
  success, shutdown, SessionData, is_empty, ReadResult, would_block, SslRead, read_error, want,
  WriteResult, write_would_block, SslWrite, write_error, FeedResult, feed_error,
  fill_input_buffer_h2c, fill_input_buffer_tls, flush_output_buffer_h2c, flush_output_buffer_tls,
  feed_input_buffer, SendResult, sends, send_error, fill_output_buffer, epollin, epollout,
  should_disconnect, update_events_h2c, update_events_tls, update_ssl_handshake_events,
  should_close_after_disconnect,
}

-- A change of a function at one descriptor.
abbrev pub put : {A : Type 0} → ℕ → Option A → (ℕ → Option A) → ℕ → Option A
put sock a f other = if sock == other then a else f other

-- The bytes of a connection: from `read` or `SSL_read`, of those what nghttp2 has processed, what nghttp2
-- has made to be sent, and of that what `write` or `SSL_write` has taken.
pub record Traffic : Type 0 where
  pub received : Bytes
  pub fed : Bytes
  pub made : Bytes
  pub sent : Bytes

-- `interest` is the events that the last calls of `epoll_ctl` for a client's socket ask for, and none behind
-- EPOLL_CTL_DEL, whether the kernel has done as asked or not. `closed` is the descriptors that `close` has been called with, and `traffic` the bytes of the connection
-- that a descriptor has, or had last.
pub record Worker : Type 0 where
  pub use_tls : Bool
  pub session_map : ℕ → Option SessionData
  pub interest : ℕ → Option ℕ
  pub closed : List ℕ
  pub traffic : ℕ → Traffic

-- What `nghttp2_session_want_read` and `_want_write`, and `SSL_want_read` and `_want_write`, answer.
pub record Wants : Type 0 where
  pub read : Bool
  pub write : Bool
  pub ssl_read : Bool
  pub ssl_write : Bool

-- The results of the calls for one event: of the reads, up to the first one that would block; of
-- nghttp2's reading, with the state as its callbacks leave it, up to the first error; what is wanted
-- then; of nghttp2's sending; of the writes, as of the reads; and what is wanted at the end.
pub record Results : Type 0 where
  pub reads : List ReadResult
  pub ssl_reads : List SslRead
  pub feeds : List FeedResult
  pub goaway : Bool
  pub wants : Wants
  pub chunks : List SendResult
  pub writes : List WriteResult
  pub ssl_writes : List SslWrite
  pub wants_behind : Wants

-- EPOLLERR, EPOLLHUP and EPOLLRDHUP
unfoldable pub check_close_event : ℕ → Bool
check_close_event events = not (bit_and events 8216 == 0)

-- EPOLL_CTL_MOD, and EPOLL_CTL_ADD for the same events where there is no entry.
unfoldable pub set_event : ℕ → ℕ → Worker → Worker
set_event sock events w = record w { interest = put sock (some events) w.interest }

-- `update_event` calls `set_event`, or not.
unfoldable pub apply : ℕ → SessionData × Option ℕ → Worker → SessionData × Worker
unfolding set_event
apply sock (s, none) w = (s, w)
apply sock (s, some events) w = (s, set_event sock events w)

unfoldable pub update_events : Wants → SessionData → Bool → SessionData × Option ℕ
unfolding update_events_h2c update_events_tls
update_events wants s true =
    update_events_tls wants.ssl_read wants.ssl_write wants.read wants.write s
update_events wants s false = update_events_h2c wants.read wants.write s

unfoldable pub fill_input_buffer : Results → SessionData → Bool → SessionData × Option IoResult
unfolding fill_input_buffer_h2c fill_input_buffer_tls
fill_input_buffer results s true =
    fill_input_buffer_tls (results.ssl_reads ++ read_error want ∷ []) s
fill_input_buffer results s false = fill_input_buffer_h2c (results.reads ++ would_block ∷ []) s

unfoldable pub flush_output_buffer :
    Results → SessionData → Bool → Bytes × SessionData × Option IoResult
unfolding flush_output_buffer_h2c flush_output_buffer_tls
flush_output_buffer results s true =
    flush_output_buffer_tls (results.ssl_writes ++ write_error want ∷ []) s
flush_output_buffer results s false =
    flush_output_buffer_h2c (results.writes ++ write_would_block ∷ []) s

-- What the calls of the loop have given, and what nghttp2 has made.
abbrev pub bytes_in : Results → Bool → Bytes
bytes_in results true = bytes_decrypted (results.ssl_reads ++ read_error want ∷ [])
bytes_in results false = bytes_read (results.reads ++ would_block ∷ [])

abbrev pub bytes_made : List SendResult → Bytes
bytes_made [] = []
bytes_made (send_error ∷ chunks) = []
bytes_made (sends [] ∷ chunks) = []
bytes_made (sends (c ∷ chunk) ∷ chunks) = (c ∷ chunk) ++ bytes_made chunks

unfoldable pub add_traffic : ℕ → Traffic → Worker → Worker
add_traffic sock more w =
    let t = w.traffic sock in
    let t' : Traffic = record {
      received = t.received ++ more.received;
      fed = t.fed ++ more.fed;
      made = t.made ++ more.made;
      sent = t.sent ++ more.sent;
    } in
    record w { traffic = λ other. if sock == other then t' else w.traffic other }

abbrev pub no_traffic : Traffic
no_traffic = record { received = []; fed = []; made = []; sent = [] }

-- The callbacks of nghttp2 change the state for GOAWAY only.
abbrev pub called_back : Bool → SessionData → SessionData
called_back true s = record s { state = disconnecting }
called_back false s = s

abbrev pub is_shutdown : IoResult → Bool
is_shutdown shutdown = true
is_shutdown _ = false

abbrev pub is_success : IoResult → Bool
is_success success = true
is_success _ = false

-- Over TLS it shuts the SSL object down first, quietly.
unfoldable pub disconnect_from_client : ℕ → Worker → Worker
disconnect_from_client sock w = record w {
  interest = put sock none w.interest;
  closed = w.closed ++ sock ∷ [];
  session_map = put sock none w.session_map;
}

-- The object in the map is the one that has been changed.
unfoldable pub store : ℕ → SessionData → Worker → Worker
store sock s w = record w { session_map = put sock (some s) w.session_map }

-- The part behind the loops of `handle_read` and `handle_write`.
unfoldable pub finish_io :
    ℕ → Wants → IoResult → SessionData → Worker → IoResult × SessionData × Worker
unfolding update_events apply should_close_after_disconnect
finish_io sock wants result s w =
    let (s', w') = apply sock (update_events wants s w.use_tls) w in
    (if should_close_after_disconnect wants.write s' then shutdown else result, s', w')

module _ (sock : ℕ) (results : Results) where
  -- `handle_read`, behind each of its loops.
  unfoldable pub after_feed :
      SessionData → Option IoResult → Worker → Option (IoResult × SessionData × Worker)
  unfolding finish_io
  after_feed s none w = none
  after_feed s (some shutdown) w = some (shutdown, s, w)
  after_feed s (some _) w = some (finish_io sock results.wants success s w)

  unfoldable pub after_fill :
      SessionData → Option IoResult → Worker → Option (IoResult × SessionData × Worker)
  unfolding feed_input_buffer after_feed add_traffic
  after_fill s none w = none
  after_fill s (some shutdown) w = some (shutdown, s, w)
  after_fill s (some _) w =
      let (fed, s', feed_result) = feed_input_buffer (results.feeds ++ feed_error ∷ []) s in
      after_feed (called_back results.goaway s') feed_result
        (add_traffic sock (record no_traffic { fed = fed }) w)

  unfoldable pub handle_read : SessionData → Worker → Option (IoResult × SessionData × Worker)
  unfolding fill_input_buffer after_fill add_traffic
  handle_read s w =
      let (s', input_result) = fill_input_buffer results s w.use_tls in
      after_fill s' input_result
        (add_traffic sock (record no_traffic { received = bytes_in results w.use_tls }) w)

  unfoldable pub after_flush :
      SessionData → Option IoResult → Worker → Option (IoResult × SessionData × Worker)
  unfolding finish_io
  after_flush s none w = none
  after_flush s (some shutdown) w = some (shutdown, s, w)
  after_flush s (some result) w = some (finish_io sock results.wants_behind result s w)

  unfoldable pub handle_write : SessionData → Worker → Option (IoResult × SessionData × Worker)
  unfolding fill_output_buffer flush_output_buffer after_flush add_traffic
  handle_write s w = elim (fill_output_buffer results.chunks s) [
    | none ↦ none
    | some filled ↦
        let (wire, s', result) = flush_output_buffer results filled w.use_tls in
        after_flush s' result
          (add_traffic sock (record no_traffic { made = bytes_made results.chunks; sent = wire }) w)
  ]

  -- `handle_events` in three parts: the reading, the writing, the end.
  unfoldable pub read_part : ℕ → SessionData → Worker → Option (IoResult × SessionData × Worker)
  unfolding check_close_event handle_read
  read_part ev s w =
      if not (bit_and ev epollin == 0) || check_close_event ev
      then handle_read s w
      else some (success, s, w)

  unfoldable pub write_part :
      ℕ → IoResult → SessionData → Worker → Option (IoResult × SessionData × Worker)
  unfolding handle_write
  write_part ev result s w =
      if is_success result
        && (not (bit_and ev epollout == 0)
            || (not (is_empty s.output_buffer) || results.wants.write))
      then handle_write s w
      else some (result, s, w)

  unfoldable pub end_part : ℕ → IoResult → SessionData → Worker → Worker
  unfolding check_close_event disconnect_from_client store
  end_part ev result s w =
      if is_shutdown result || check_close_event ev
      then disconnect_from_client sock w
      else store sock s w

  unfoldable pub after_write : ℕ → Option (IoResult × SessionData × Worker) → Option Worker
  unfolding end_part
  after_write ev none = none
  after_write ev (some (result, s, w)) = some (end_part ev result s w)

  unfoldable pub after_read : ℕ → Option (IoResult × SessionData × Worker) → Option Worker
  unfolding write_part after_write
  after_read ev none = none
  after_read ev (some (result, s, w)) = after_write ev (write_part ev result s w)

  unfoldable pub handle_events : ℕ → SessionData → Worker → Option Worker
  unfolding read_part after_read
  handle_events ev s w = after_read ev (read_part ev s w)
