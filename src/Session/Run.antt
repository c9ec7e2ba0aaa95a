-- ===== src/Session/Run.antt =====
-- The callbacks in the order in which nghttp2 makes them, and what they mean for a map of the open
-- streams.
use h2_server.Prelude.{
  ℕ, Bytes, bytes, same, Bool, true, false, Option, none, some, List, [], ◌∷◌, ◌++◌, ◌≡◌, ◌==◌,
  if◌then◌else◌,
}
use h2_server.Connection.{SessionState, disconnecting}
use h2_server.FileCache.{Probe, Cache}
use h2_server.Handler.{Answer, Handled}
use h2_server.Main.{AppHandler}
use h2_server.Multipart.{Effect}
use h2_server.Router.{Node}
use h2_server.Session.{
  UserData, StreamData, new_stream, Session, FrameType, headers, data_frame, goaway, method_header,
  content_type_header, find_stream, destroy, on_begin_headers_callback, on_header_callback,
  on_data_chunk_recv_callback, on_stream_close_callback, on_frame_recv_callback, handle_request,
}

-- A callback with its arguments; the flag tells a HEADERS frame that opens a request, and the address
-- is where the new stream is allocated. In `frame` the first flag is the submission of the answer.
pub data Callback : Type 0 where
  begin_headers : Bool → ℕ → ℕ → Callback
  header : Bool → ℕ → Bytes → Bytes → Callback
  data_chunk : ℕ → Bytes → Callback
  frame : Bool → FrameType → Bool → ℕ → Callback
  stream_close : ℕ → Callback

-- A callback that returns 0.
abbrev pub returns_zero : {T : Type 0} → Option (Session T) → Option (Session T × Bool)
returns_zero none = none
returns_zero (some s) = some (s, true)

-- What a header does to the stream of its frame.
unfoldable pub header_change : Bytes → Bytes → StreamData → StreamData
unfolding same method_header content_type_header
header_change name value stream =
    if same name (bytes ":path")
    then record stream { request_path = value }
    else if same name (bytes ":method")
    then method_header value stream
    else if same name (bytes "content-type")
    then content_type_header value stream
    else stream

-- The session as a map of the open streams.
pub record Model : Type 0 where
  pub open_streams : ℕ → Option StreamData
  pub state : SessionState
  pub file_cache : Cache
  pub effects : List Effect
  pub answers : List (ℕ × Answer)

abbrev pub change_option : (StreamData → StreamData) → Option StreamData → Option StreamData
change_option change none = none
change_option change (some stream) = some (change stream)

abbrev pub put : ℕ → Option StreamData → (ℕ → Option StreamData) → ℕ → Option StreamData
put id stream streams other = if id == other then stream else streams other

abbrev pub change_at : ℕ → (StreamData → StreamData) → Model → Model
change_at id change m = record m {
  open_streams = put id (change_option change (m.open_streams id)) m.open_streams;
}

-- What a handled request leaves.
abbrev pub answered : ℕ → StreamData → Handled → Model → Model
answered id stream handled m = record m {
  open_streams =
      put id (some (record stream { mime_parser = handled.mime_parser; upload_file_buffer = [] }))
        m.open_streams;
  file_cache = handled.file_cache;
  effects = m.effects ++ handled.effects;
  answers = m.answers ++ (id, handled.answer) ∷ [];
}

module _ (router : Option (Node AppHandler)) (temporary : ℕ → ℕ → Bytes)
    (disk : List Effect → Bytes → Probe) where
  -- A request is answered from what has been collected for its stream.
  unfoldable pub answer : Bool → ℕ → Option StreamData → Model → Option (Model × Bool)
  unfolding handle_request
  answer submitted id none m = some (m, true)
  answer submitted id (some stream) m = elim router [
    | none ↦ some (m, false)
    | some root ↦ elim (stream.method) [
      | none ↦ none
      | some method ↦
          let handled = handle_request temporary disk root method m.file_cache stream in
          some (answered id stream handled m, submitted)
    ]
  ]

  unfoldable pub meaning : Callback → Model → Option (Model × Bool)
  unfolding header_change answer destroy
  meaning (begin_headers false id address) m = some (m, true)
  meaning (begin_headers true id address) m =
      some (record m { open_streams = put id (some (new_stream id)) m.open_streams }, true)
  meaning (header false id name value) m = some (m, true)
  meaning (header true id name value) m = some (change_at id (header_change name value) m, true)
  meaning (data_chunk id chunk) m = some (
    change_at id
        (λ stream. record stream { upload_file_buffer = stream.upload_file_buffer ++ chunk }) m,
    true,
  )
  meaning (frame submitted headers true id) m = answer submitted id (m.open_streams id) m
  meaning (frame submitted data_frame true id) m = answer submitted id (m.open_streams id) m
  meaning (frame submitted goaway end_stream id) m = some (record m { state = disconnecting }, true)
  meaning (frame submitted _ end_stream id) m = some (m, true)
  meaning (stream_close id) m = some (
    record m {
      open_streams = put id none m.open_streams;
      effects = m.effects ++ destroy (m.open_streams id);
    },
    true,
  )

  -- A callback that fails ends the run.
  unfoldable pub meanings : List Callback → Model → Option (Model × Bool)
  unfolding meaning
  meanings [] m = some (m, true)
  meanings (c ∷ cs) m = elim (meaning c m) [
    | none ↦ none
    | some (m', false) ↦ some (m', false)
    | some (m', true) ↦ meanings cs m'
  ]

  module _ {T : Type 0} (nghttp2 : UserData T) where
    unfoldable pub perform : Callback → Session T → Option (Session T × Bool)
    unfolding on_begin_headers_callback on_header_callback on_data_chunk_recv_callback
        on_stream_close_callback on_frame_recv_callback
    perform (begin_headers is_request id address) s =
        returns_zero (on_begin_headers_callback nghttp2 is_request id address s)
    perform (header is_request id name value) s =
        returns_zero (on_header_callback nghttp2 is_request id name value s)
    perform (data_chunk id chunk) s = returns_zero (on_data_chunk_recv_callback nghttp2 id chunk s)
    perform (frame submitted type end_stream id) s =
        on_frame_recv_callback nghttp2 router temporary disk submitted type end_stream id s
    perform (stream_close id) s = returns_zero (on_stream_close_callback nghttp2 id s)

    unfoldable pub run : List Callback → Session T → Option (Session T × Bool)
    unfolding perform
    run [] s = some (s, true)
    run (c ∷ cs) s = elim (perform c s) [
      | none ↦ none
      | some (s', false) ↦ some (s', false)
      | some (s', true) ↦ run cs s'
    ]

    -- A new stream is allocated where no stream lives.
    abbrev pub AllocatesAt : Callback → Session T → Type 0
    AllocatesAt (begin_headers true id address) s = find_stream address s.streams ≡ none
    AllocatesAt _ s = Unit

    abbrev pub Continue : Option (Session T × Bool) → (Session T → Type 0) → Type 0
    Continue none P = Unit
    Continue (some (s, b)) P = P s

    abbrev pub Allocates : List Callback → Session T → Type 0
    Allocates [] s = Unit
    Allocates (c ∷ cs) s = AllocatesAt c s × Continue (perform c s) (λ s'. Allocates cs s')
