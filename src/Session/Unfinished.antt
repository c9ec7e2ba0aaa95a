-- ===== src/Session/Unfinished.antt =====
-- The end of a session: the destructor of `SessionData` (src/session.cc) destroys the streams that are
-- left, in their order. What becomes of requests that have not ended by then.
pub mod Quiet
pub mod Interrupted
use h2_server.Prelude.{
  ℕ, ◌≡◌, refl, sym, ap, subst, ◌∙◌, Bytes, bytes, same, Bool, true, false, Option, none, some,
  List, [], ◌∷◌, ◌++◌, ◌==◌, if◌then◌else◌, All, All-append, append-nil, arith, Bool-cases, inl,
  inr,
}
use h2_server.FileCache.{Probe}
use h2_server.Main.{AppHandler}
use h2_server.Multipart.{Effect, Parser, fresh, extract_boundary, rename_temporary_filenames}
use h2_server.Router.{Node, get, post}
use h2_server.Session.{
  UserData, StreamData, new_stream, Session, FrameType, headers, data_frame, goaway, other_frame,
  method_header, content_type_header, find_stream, write_stream, delete_stream_data, destroy,
  update_stream, on_begin_headers_callback, on_header_callback, on_data_chunk_recv_callback,
  on_stream_close_callback, on_frame_recv_callback,
}
use h2_server.Session.Run.{
  Callback, begin_headers, header, data_chunk, frame, stream_close, returns_zero, perform, run,
}

-- What the destructor of the session does to files.
unfoldable pub destroy_streams : List (ℕ × StreamData) → List Effect
unfolding destroy
destroy_streams [] = []
destroy_streams ((address, stream) ∷ streams) = destroy (some stream) ++ destroy_streams streams

-- The stream's parser, if there is one, has no file.
abbrev pub NoFiles : StreamData → Type 0
NoFiles stream = elim (stream.mime_parser) [ none ↦ Unit | some p ↦ p.file_map ≡ [] ]

abbrev pub Unsaved : List (ℕ × StreamData) → Type 0
Unsaved = All (λ (x : ℕ × StreamData). NoFiles x.1)

-- No frame ends a request.
abbrev pub EndsNone : Callback → Type 0
EndsNone (frame submitted type end_stream id) = end_stream ≡ false
EndsNone _ = Unit

pub destroy_lem : (stream : StreamData) → NoFiles stream → destroy (some stream) ≡ []
unfolding destroy rename_temporary_filenames
destroy_lem stream h = by_parser stream.mime_parser h
  where
    by_parser :
        (o : Option Parser)
        → NoFiles (record stream { mime_parser = o })
        → destroy (some (record stream { mime_parser = o })) ≡ []
    by_parser none h = refl
    by_parser (some p) h = ap rename_temporary_filenames h

pub destroy_streams_lem :
    (streams : List (ℕ × StreamData)) → Unsaved streams → destroy_streams streams ≡ []
unfolding destroy_streams
destroy_streams_lem [] h = refl
destroy_streams_lem ((a, stream) ∷ streams) h =
    rw (destroy_lem stream h.0) (destroy_streams_lem streams h.1)

pub find_stream-NoFiles :
    (address : ℕ) (streams : List (ℕ × StreamData)) (stream : StreamData)
    → Unsaved streams
    → find_stream address streams ≡ some stream
    → NoFiles stream
unfolding find_stream
find_stream-NoFiles address [] stream h e = absurd cc
find_stream-NoFiles address ((a, x) ∷ streams) stream h e = elim (Bool-cases (a == address)) [
  | inl hit ↦ let here : x ≡ stream = ground arith in subst NoFiles here h.0
  | inr miss ↦ find_stream-NoFiles address streams stream h.1 (rw miss at e)
]

pub write_stream-Unsaved :
    (address : ℕ) (new : StreamData) (streams : List (ℕ × StreamData))
    → NoFiles new
    → Unsaved streams
    → Unsaved (write_stream address new streams)
unfolding write_stream
write_stream-Unsaved address new [] n h = h
write_stream-Unsaved address new ((a, x) ∷ streams) n h = elim (Bool-cases (a == address)) [
  | inl hit ↦ rw hit (n, h.1)
  | inr miss ↦ rw miss (h.0, write_stream-Unsaved address new streams n h.1)
]

pub delete_stream_data-Unsaved :
    (address : ℕ) (streams : List (ℕ × StreamData))
    → Unsaved streams
    → Unsaved (delete_stream_data address streams)
unfolding delete_stream_data
delete_stream_data-Unsaved address [] h = h
delete_stream_data-Unsaved address ((a, x) ∷ streams) h = elim (Bool-cases (a == address)) [
  | inl hit ↦ rw hit h.1
  | inr miss ↦ rw miss (h.0, delete_stream_data-Unsaved address streams h.1)
]

file_map-extract_boundary :
    (type : Bytes) (p : Parser) → (extract_boundary type p).0.file_map ≡ p.file_map
unfolding extract_boundary
file_map-extract_boundary type p = ground arith

pub method_header-NoFiles :
    (value : Bytes) (stream : StreamData) → NoFiles stream → NoFiles (method_header value stream)
unfolding method_header
method_header-NoFiles value stream h =
    by_tests (same value (bytes "GET")) (same value (bytes "POST"))
  where
    by_tests :
        (is_get is_post : Bool)
        → NoFiles (
            if is_get
            then record stream { method = some get }
            else if is_post
            then record stream { method = some post; mime_parser = some fresh }
            else stream)
    by_tests true is_post = h
    by_tests false true = refl
    by_tests false false = h

pub content_type-NoFiles :
    (value : Bytes) (stream : StreamData)
    → NoFiles stream
    → NoFiles (content_type_header value stream)
unfolding content_type_header
content_type-NoFiles value stream h = by_parser stream.mime_parser h
  where
    by_parser :
        (o : Option Parser)
        → NoFiles (record stream { mime_parser = o })
        → NoFiles (content_type_header value (record stream { mime_parser = o }))
    by_parser none h = tt
    by_parser (some p) h = file_map-extract_boundary value p ∙ h
