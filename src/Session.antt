-- ===== src/Session.antt =====
-- The callbacks of src/session.cc that nghttp2 makes while it reads a connection, and the streams of
-- `SessionData`. An object lives at an address; nghttp2 keeps one for each stream (`user_data`), and
-- `none` is an access to an object that is not there, or the use of a method that was never set.
pub mod Run
pub mod Links
pub mod Pointers
pub mod Refine
pub mod Steps
pub mod Callbacks
pub mod Collect
pub mod Outcome
pub mod Requests
pub mod Uploads
pub mod Unfinished
pub mod Downloads
mod Tests
use h2_server.Prelude.{
  ℕ, Bytes, bytes, same, Bool, true, false, Option, none, some, List, [], ◌∷◌, ◌++◌, ◌≡◌, ◌==◌,
  if◌then◌else◌,
}
use h2_server.Connection.{SessionState, disconnecting}
use h2_server.FileCache.{Probe, Cache}
use h2_server.Handler.{Answer, error_reply, Handled, call}
use h2_server.Main.{AppHandler}
use h2_server.Multipart.{Parser, fresh, Effect, extract_boundary, rename_temporary_filenames}
use h2_server.Router.{Method, get, post, Node, resolve}

-- nghttp2's pointer for each stream: `nghttp2_session_get_stream_user_data` gives what was set last,
-- and null for a stream that is closed.
pub record UserData (T : Type 0) : Type 0 where
  pub empty : T
  pub get_user_data : ℕ → T → Option ℕ
  pub set_user_data : ℕ → ℕ → T → T
  pub close : ℕ → T → T
  pub empty_law : (id : ℕ) → get_user_data id empty ≡ none
  pub set_law :
      (id address other : ℕ) (t : T)
      → get_user_data other (set_user_data id address t)
        ≡ (if id == other then some address else get_user_data other t)
  pub close_law :
      (id other : ℕ) (t : T)
      → get_user_data other (close id t) ≡ (if id == other then none else get_user_data other t)

-- `file_ctx` is in the answer that a handler gives. The constructor leaves `method` unset.
pub record StreamData : Type 0 where
  pub stream_id : ℕ
  pub method : Option Method
  pub request_path : Bytes
  pub mime_parser : Option Parser
  pub upload_file_buffer : Bytes

abbrev pub new_stream : ℕ → StreamData
new_stream id = record {
  stream_id = id;
  method = none;
  request_path = [];
  mime_parser = none;
  upload_file_buffer = [];
}

-- The session, with the cache of its thread, the effects on files, and the answers submitted.
pub record Session (T : Type 0) : Type 0 where
  pub streams : List (ℕ × StreamData)
  pub user_data : T
  pub state : SessionState
  pub file_cache : Cache
  pub effects : List Effect
  pub answers : List (ℕ × Answer)

pub data FrameType : Type 0 where
  headers data_frame goaway other_frame : FrameType

-- The value of `:method`. nghttp2 rejects a second one in a request. The parser that it would replace has
-- no file, since files are written when the request has ended, and the destructor of a parser without files
-- does nothing: the assignment makes no effect.
unfoldable pub method_header : Bytes → StreamData → StreamData
unfolding same
method_header value stream =
    if same value (bytes "GET")
    then record stream { method = some get }
    else if same value (bytes "POST")
    then record stream { method = some post; mime_parser = some fresh }
    else stream

unfoldable pub content_type_header : Bytes → StreamData → StreamData
unfolding extract_boundary
content_type_header value stream = elim (stream.mime_parser) [
  | none ↦ stream
  | some p ↦ record stream { mime_parser = some (extract_boundary value p).0 }
]

unfoldable pub find_stream : ℕ → List (ℕ × StreamData) → Option StreamData
find_stream address [] = none
find_stream address ((a, stream) ∷ streams) =
    if a == address then some stream else find_stream address streams

-- A change of the object at an address.
unfoldable pub write_stream : ℕ → StreamData → List (ℕ × StreamData) → List (ℕ × StreamData)
write_stream address new [] = []
write_stream address new ((a, stream) ∷ streams) =
    if a == address then (a, new) ∷ streams else (a, stream) ∷ write_stream address new streams

unfoldable pub delete_stream_data : ℕ → List (ℕ × StreamData) → List (ℕ × StreamData)
delete_stream_data address [] = []
delete_stream_data address ((a, stream) ∷ streams) =
    if a == address then streams else (a, stream) ∷ delete_stream_data address streams

-- The names of temporary files that a stream's parser gives (they hold its address, and a stream has
-- one parser), and what the kernel makes of paths.
module _ (temporary : ℕ → ℕ → Bytes) (disk : List Effect → Bytes → Probe) where
  -- What the request makes of the stream's parts; without a handler it is answered by 404.
  unfoldable pub handle_request : Node AppHandler → Method → Cache → StreamData → Handled
  unfolding resolve call
  handle_request root method cache stream =
      let (found, param) = resolve method stream.request_path root in
      elim found [
        | none ↦ record {
          file_cache = cache;
          mime_parser = stream.mime_parser;
          effects = [];
          answer = error_reply;
        }
        | some handler ↦
            call (temporary stream.stream_id) disk handler cache stream.mime_parser
              stream.upload_file_buffer param
      ]

-- The destructor of the stream's parser.
unfoldable pub destroy : Option StreamData → List Effect
unfolding rename_temporary_filenames
destroy none = []
destroy (some stream) = elim (stream.mime_parser) [
  | none ↦ []
  | some p ↦ rename_temporary_filenames p.file_map
]

module _ {T : Type 0} (nghttp2 : UserData T) where
  -- A callback that changes the stream, if nghttp2 knows it.
  unfoldable pub update_stream : ℕ → (StreamData → StreamData) → Session T → Option (Session T)
  unfolding find_stream write_stream
  update_stream id change s = elim (nghttp2.get_user_data id s.user_data) [
    | none ↦ some s
    | some address ↦ elim (find_stream address s.streams) [
      | none ↦ none
      | some stream ↦ some (record s { streams = write_stream address (change stream) s.streams })
    ]
  ]

  abbrev pub add_stream_data_to_session : ℕ → StreamData → Session T → Session T
  add_stream_data_to_session address stream s = record s {
    user_data = nghttp2.set_user_data stream.stream_id address s.user_data;
    streams = s.streams ++ (address, stream) ∷ [];
  }

  -- `is_request`: a HEADERS frame that opens a request. The new object is at `address`.
  unfoldable pub on_begin_headers_callback : Bool → ℕ → ℕ → Session T → Option (Session T)
  on_begin_headers_callback false id address s = some s
  on_begin_headers_callback true id address s =
      some (add_stream_data_to_session address (new_stream id) s)

  unfoldable pub on_header_callback : Bool → ℕ → Bytes → Bytes → Session T → Option (Session T)
  unfolding same update_stream method_header content_type_header
  on_header_callback false id name value s = some s
  on_header_callback true id name value s =
      if same name (bytes ":path")
      then update_stream id (λ stream. record stream { request_path = value }) s
      else if same name (bytes ":method")
      then update_stream id (method_header value) s
      else if same name (bytes "content-type")
      then update_stream id (content_type_header value) s
      else some s

  unfoldable pub on_data_chunk_recv_callback : ℕ → Bytes → Session T → Option (Session T)
  unfolding update_stream
  on_data_chunk_recv_callback id chunk s =
      update_stream id
        (λ stream. record stream { upload_file_buffer = stream.upload_file_buffer ++ chunk }) s

  -- `delete_stream_data`, which destroys the stream's parser; nghttp2 drops the stream behind the
  -- callback.
  unfoldable pub on_stream_close_callback : ℕ → Session T → Option (Session T)
  unfolding find_stream delete_stream_data destroy
  on_stream_close_callback id s = elim (nghttp2.get_user_data id s.user_data) [
    | none ↦ some s
    | some address ↦ some (record s {
      streams = delete_stream_data address s.streams;
      user_data = nghttp2.close id s.user_data;
      effects = s.effects ++ destroy (find_stream address s.streams);
    })
  ]

  -- A worker's router, the names of temporary files, and what the kernel makes of paths.
  module _ (router : Option (Node AppHandler)) (temporary : ℕ → ℕ → Bytes)
      (disk : List Effect → Bytes → Probe) where
    -- The session behind a request; the destructor of `Request` clears the buffer.
    unfoldable pub store_handled : ℕ → StreamData → Handled → Session T → Session T
    unfolding write_stream
    store_handled address stream handled s = record s {
      streams =
          write_stream address
            (record stream { mime_parser = handled.mime_parser; upload_file_buffer = [] })
            s.streams;
      file_cache = handled.file_cache;
      effects = s.effects ++ handled.effects;
      answers = s.answers ++ (stream.stream_id, handled.answer) ∷ [];
    }

    -- The result is `false` for NGHTTP2_ERR_CALLBACK_FAILURE; `submitted` is the answer's submission.
    unfoldable pub on_request_recv : Bool → ℕ → StreamData → Session T → Option (Session T × Bool)
    unfolding handle_request store_handled
    on_request_recv submitted address stream s = elim router [
      | none ↦ some (s, false)
      | some root ↦ elim (stream.method) [
        | none ↦ none
        | some method ↦ some (
          store_handled address stream
              (handle_request temporary disk root method s.file_cache stream) s,
          submitted,
        )
      ]
    ]

    unfoldable pub on_end_stream : Bool → ℕ → Session T → Option (Session T × Bool)
    unfolding find_stream on_request_recv
    on_end_stream submitted id s = elim (nghttp2.get_user_data id s.user_data) [
      | none ↦ some (s, true)
      | some address ↦ elim (find_stream address s.streams) [
        | none ↦ none
        | some stream ↦ on_request_recv submitted address stream s
      ]
    ]

    unfoldable pub on_frame_recv_callback :
        Bool → FrameType → Bool → ℕ → Session T → Option (Session T × Bool)
    unfolding on_end_stream
    on_frame_recv_callback submitted headers true id s = on_end_stream submitted id s
    on_frame_recv_callback submitted data_frame true id s = on_end_stream submitted id s
    on_frame_recv_callback submitted goaway end_stream id s =
        some (record s { state = disconnecting }, true)
    on_frame_recv_callback submitted _ end_stream id s = some (s, true)
