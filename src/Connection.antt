-- ===== src/Connection.antt =====
-- A client connection in a worker (src/worker.cc, `SessionData` of src/session.cc): its buffers,
-- the loops that fill and flush them, and the events that epoll watches. What the kernel, OpenSSL
-- and nghttp2 return at each call is a list of results; where it ends, the loop is still running
-- (`none`).
pub mod Buffers
pub mod Interest
mod Tests
use h2_server.Prelude.{
  ℕ, zero, suc, ◌+◌, min, bit_or, Bytes, Bool, true, false, not, ◌&&◌, ◌||◌, Option, none, some,
  List, [], ◌∷◌, ◌++◌, length, take, drop, ◌==◌, if◌then◌else◌,
}

pub data SessionState : Type 0 where
  connecting disconnecting tls_handshaking establishing established : SessionState

pub data IoResult : Type 0 where
  success again shutdown : IoResult

pub record SessionData : Type 0 where
  pub output_buffer : Bytes
  pub input_buffer : Bytes
  pub events : ℕ
  pub state : SessionState

unfoldable pub append_to_output_buffer : Bytes → SessionData → SessionData
append_to_output_buffer bytes s = record s { output_buffer = s.output_buffer ++ bytes }

unfoldable pub consume_output_buffer : ℕ → SessionData → SessionData
consume_output_buffer len s = record s { output_buffer = drop len s.output_buffer }

unfoldable pub append_to_input_buffer : Bytes → SessionData → SessionData
append_to_input_buffer bytes s = record s { input_buffer = s.input_buffer ++ bytes }

unfoldable pub consume_input_buffer : ℕ → SessionData → SessionData
consume_input_buffer len s = record s { input_buffer = drop len s.input_buffer }

abbrev pub is_empty : Bytes → Bool
is_empty [] = true
is_empty (c ∷ s) = false

-- `read`: bytes, the end of the stream, or -1 with EINTR, EAGAIN or another error.
pub data ReadResult : Type 0 where
  received : Bytes → ReadResult
  end_of_stream interrupted would_block failed : ReadResult

unfoldable pub fill_input_buffer_h2c : List ReadResult → SessionData → SessionData × Option IoResult
unfolding append_to_input_buffer
fill_input_buffer_h2c [] s = (s, none)
fill_input_buffer_h2c (received bytes ∷ results) s =
    fill_input_buffer_h2c results (append_to_input_buffer bytes s)
fill_input_buffer_h2c (end_of_stream ∷ results) s = (s, some shutdown)
fill_input_buffer_h2c (interrupted ∷ results) s = fill_input_buffer_h2c results s
fill_input_buffer_h2c (would_block ∷ results) s = (s, some again)
fill_input_buffer_h2c (failed ∷ results) s = (s, some shutdown)

-- What `SSL_get_error` says of a call that moved no bytes: SSL_ERROR_WANT_READ or _WANT_WRITE,
-- SSL_ERROR_SYSCALL with EAGAIN, with EINTR or with another error, SSL_ERROR_ZERO_RETURN, any
-- other.
pub data SslError : Type 0 where
  want syscall_again syscall_interrupted syscall_failed zero_return other : SslError

-- What a loop does about an error: go on, or return.
unfoldable pub on_ssl_error : SslError → Option IoResult
on_ssl_error want = some again
on_ssl_error syscall_again = some again
on_ssl_error syscall_interrupted = none
on_ssl_error syscall_failed = some shutdown
on_ssl_error zero_return = some shutdown
on_ssl_error other = some shutdown

pub data SslRead : Type 0 where
  decrypted : Bytes → SslRead
  read_error : SslError → SslRead

unfoldable pub fill_input_buffer_tls : List SslRead → SessionData → SessionData × Option IoResult
unfolding append_to_input_buffer on_ssl_error
fill_input_buffer_tls [] s = (s, none)
fill_input_buffer_tls (decrypted bytes ∷ results) s =
    fill_input_buffer_tls results (append_to_input_buffer bytes s)
fill_input_buffer_tls (read_error e ∷ results) s = elim (on_ssl_error e) [
  | some result ↦ (s, some result)
  | none ↦ fill_input_buffer_tls results s
]

-- `write`: it takes up to that many of the bytes offered, or is -1 with EINTR, EAGAIN or another
-- error.
pub data WriteResult : Type 0 where
  takes : ℕ → WriteResult
  write_interrupted write_would_block write_failed : WriteResult

-- The bytes that left for the peer, the session, and the result.
unfoldable pub flush_output_buffer_h2c :
    List WriteResult → SessionData → Bytes × SessionData × Option IoResult
unfolding consume_output_buffer
flush_output_buffer_h2c [] s = ([], s, if is_empty s.output_buffer then some success else none)
flush_output_buffer_h2c (r ∷ results) s =
    if is_empty s.output_buffer then ([], s, some success) else elim r [
      | takes n ↦
          let written_len = min n (length s.output_buffer) in
          let (wire, s', result) =
            flush_output_buffer_h2c results (consume_output_buffer written_len s) in
          (take written_len s.output_buffer ++ wire, s', result)
      | write_interrupted ↦ flush_output_buffer_h2c results s
      | write_would_block ↦ ([], s, some again)
      | write_failed ↦ ([], s, some shutdown)
    ]

pub data SslWrite : Type 0 where
  encrypts : ℕ → SslWrite
  write_error : SslError → SslWrite

unfoldable pub flush_output_buffer_tls :
    List SslWrite → SessionData → Bytes × SessionData × Option IoResult
unfolding consume_output_buffer on_ssl_error
flush_output_buffer_tls [] s = ([], s, if is_empty s.output_buffer then some success else none)
flush_output_buffer_tls (r ∷ results) s =
    if is_empty s.output_buffer then ([], s, some success) else elim r [
      | encrypts n ↦
          let written_len = min n (length s.output_buffer) in
          let (wire, s', result) =
            flush_output_buffer_tls results (consume_output_buffer written_len s) in
          (take written_len s.output_buffer ++ wire, s', result)
      | write_error e ↦ elim (on_ssl_error e) [
        | some result ↦ ([], s, some result)
        | none ↦ flush_output_buffer_tls results s
      ]
    ]

-- `nghttp2_session_mem_recv2`: it processes up to that many of the bytes offered, or fails.
pub data FeedResult : Type 0 where
  processed : ℕ → FeedResult
  feed_error : FeedResult

-- The bytes that nghttp2 has processed, the session, and the result.
unfoldable pub feed_input_buffer :
    List FeedResult → SessionData → Bytes × SessionData × Option IoResult
unfolding consume_input_buffer
feed_input_buffer [] s = ([], s, if is_empty s.input_buffer then some success else none)
feed_input_buffer (r ∷ results) s =
    if is_empty s.input_buffer then ([], s, some success) else elim r [
      | processed n ↦
          let fed_len = min n (length s.input_buffer) in
          let (fed, s', result) = feed_input_buffer results (consume_input_buffer fed_len s) in
          (take fed_len s.input_buffer ++ fed, s', result)
      | feed_error ↦ ([], s, some shutdown)
    ]

-- A result of `nghttp2_session_mem_send2`: a chunk, or a negative number.
pub data SendResult : Type 0 where
  sends : Bytes → SendResult
  send_error : SendResult

-- The results while nghttp2 wants to write. A negative one is taken for a huge `size_t`, and as many bytes
-- are read from nowhere: `none`.
unfoldable pub fill_output_buffer : List SendResult → SessionData → Option SessionData
unfolding append_to_output_buffer
fill_output_buffer [] s = some s
fill_output_buffer (send_error ∷ results) s = none
fill_output_buffer (sends chunk ∷ results) s =
    if is_empty chunk then some s else fill_output_buffer results (append_to_output_buffer chunk s)

-- No result is an error.
abbrev pub IsSent : SendResult → Type 0
IsSent (sends chunk) = Unit
IsSent send_error = ⊥

abbrev pub epollin : ℕ
epollin = 1

abbrev pub epollout : ℕ
epollout = 4

abbrev pub should_disconnect : SessionState → Bool
should_disconnect disconnecting = true
should_disconnect _ = false

-- The session, and the events that `epoll_ctl` is called with, if it is called.
unfoldable pub update_event : ℕ → SessionData → SessionData × Option ℕ
update_event events s =
    if s.events == events then (s, none) else (record s { events = events }, some events)

-- What the library wants decides the events.
unfoldable pub update_events_h2c : Bool → Bool → SessionData → SessionData × Option ℕ
unfolding update_event
update_events_h2c want_read want_write s =
    let out = if want_write || not (is_empty s.output_buffer) then epollout else 0 in
    if should_disconnect s.state
    then update_event out s
    else let events = bit_or (if want_read then epollin else 0) out in
      update_event (if events == 0 then epollin else events) s

unfoldable pub update_events_tls : Bool → Bool → Bool → Bool → SessionData → SessionData × Option ℕ
unfolding update_event
update_events_tls ssl_want_read ssl_want_write want_read want_write s =
    let out =
      if ssl_want_write || (want_write || not (is_empty s.output_buffer)) then epollout else 0 in
    if should_disconnect s.state
    then update_event out s
    else let events = bit_or (if ssl_want_read || want_read then epollin else 0) out in
      update_event (if events == 0 then epollin else events) s

unfoldable pub update_ssl_handshake_events : Bool → Bool → SessionData → SessionData × Option ℕ
unfolding update_event
update_ssl_handshake_events ssl_want_read ssl_want_write s =
    let events =
      bit_or (if ssl_want_read then epollin else 0) (if ssl_want_write then epollout else 0) in
    update_event (if events == 0 then epollin else events) s

unfoldable pub should_close_after_disconnect : Bool → SessionData → Bool
should_close_after_disconnect want_write s =
    if should_disconnect s.state then not want_write && is_empty s.output_buffer else false
