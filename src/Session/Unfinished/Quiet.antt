-- ===== src/Session/Unfinished/Quiet.antt =====
-- What a callback that ends no request does to a session.
use h2_server.Prelude.{
  ℕ, ◌≡◌, refl, ap, ◌∙◌, Bytes, bytes, same, Bool, true, false, Option, none, some, List, [], ◌∷◌,
  ◌++◌, All-append, append-nil, if◌then◌else◌,
}
use h2_server.FileCache.{Probe}
use h2_server.Main.{AppHandler}
use h2_server.Multipart.{Effect}
use h2_server.Router.{Node}
use h2_server.Session.{
  UserData, StreamData, new_stream, Session, headers, data_frame, goaway, other_frame,
  method_header, content_type_header, find_stream, write_stream, delete_stream_data, destroy,
  update_stream, on_begin_headers_callback, on_header_callback, on_data_chunk_recv_callback,
  on_stream_close_callback, on_frame_recv_callback,
}
use h2_server.Session.Run.{
  Callback, begin_headers, header, data_chunk, frame, stream_close, returns_zero, perform,
}
use h2_server.Session.Unfinished.{
  NoFiles, Unsaved, EndsNone, destroy_lem, find_stream-NoFiles, write_stream-Unsaved,
  delete_stream_data-Unsaved, method_header-NoFiles, content_type-NoFiles,
}

module _ {T : Type 0} (nghttp2 : UserData T) where
  -- No parser has a file, and nothing has happened to files.
  abbrev pub Kept : Session T → Option (Session T × Bool) → Type 0
  Kept s none = Unit
  Kept s (some (s', b)) = Unsaved s'.streams × (s'.effects ≡ s.effects)

  update_stream-Kept :
      (id : ℕ) (change : StreamData → StreamData) (s : Session T)
      → ((stream : StreamData) → NoFiles stream → NoFiles (change stream))
      → Unsaved s.streams
      → Kept s (returns_zero (update_stream nghttp2 id change s))
  unfolding update_stream
  update_stream-Kept id change s keeps h = by_pointer (nghttp2.get_user_data id s.user_data)
    where
      by_stream :
          (address : ℕ) (o : Option StreamData)
          → find_stream address s.streams ≡ o
          → Kept s (
              returns_zero (elim o [
                | none ↦ none
                | some stream ↦
                    some (record s { streams = write_stream address (change stream) s.streams })
              ]))
      by_stream address none e = tt
      by_stream address (some stream) e = (
        write_stream-Unsaved address (change stream) s.streams
            (keeps stream (find_stream-NoFiles address s.streams stream h e)) h,
        refl,
      )

      by_pointer :
          (o : Option ℕ)
          → Kept s (
              returns_zero (elim o [
                | none ↦ some s
                | some address ↦ elim (find_stream address s.streams) [
                  | none ↦ none
                  | some stream ↦
                      some (record s { streams = write_stream address (change stream) s.streams })
                ]
              ]))
      by_pointer none = (h, refl)
      by_pointer (some address) = by_stream address (find_stream address s.streams) refl

  header-Kept :
      (id : ℕ) (name value : Bytes) (s : Session T)
      → Unsaved s.streams
      → Kept s (returns_zero (on_header_callback nghttp2 true id name value s))
  unfolding on_header_callback
  header-Kept id name value s h =
      by_name (same name (bytes ":path")) (same name (bytes ":method"))
        (same name (bytes "content-type"))
    where
      by_name :
          (path method type : Bool)
          → Kept s (
              returns_zero (
                if path
                then update_stream nghttp2 id (λ stream. record stream { request_path = value }) s
                else if method
                then update_stream nghttp2 id (method_header value) s
                else if type
                then update_stream nghttp2 id (content_type_header value) s
                else some s))
      by_name true method type = update_stream-Kept id _ s (λ stream n. n) h
      by_name false true type = update_stream-Kept id _ s (method_header-NoFiles value) h
      by_name false false true = update_stream-Kept id _ s (content_type-NoFiles value) h
      by_name false false false = (h, refl)

  close-Kept :
      (id : ℕ) (s : Session T)
      → Unsaved s.streams
      → Kept s (returns_zero (on_stream_close_callback nghttp2 id s))
  unfolding on_stream_close_callback
  close-Kept id s h = by_pointer (nghttp2.get_user_data id s.user_data)
    where
      no_effect :
          (o : Option StreamData) (address : ℕ) → find_stream address s.streams ≡ o → destroy o ≡ []
      no_effect none address e = refl
      no_effect (some stream) address e =
          destroy_lem stream (find_stream-NoFiles address s.streams stream h e)

      by_pointer :
          (o : Option ℕ)
          → Kept s (
              returns_zero (elim o [
                | none ↦ some s
                | some address ↦ some (record s {
                  streams = delete_stream_data address s.streams;
                  user_data = nghttp2.close id s.user_data;
                  effects = s.effects ++ destroy (find_stream address s.streams);
                })
              ]))
      by_pointer none = (h, refl)
      by_pointer (some address) = (
        delete_stream_data-Unsaved address s.streams h,
        ap (λ e. s.effects ++ e) (no_effect (find_stream address s.streams) address refl)
            ∙ append-nil s.effects,
      )

  module _ (router : Option (Node AppHandler)) (temporary : ℕ → ℕ → Bytes)
      (disk : List Effect → Bytes → Probe) where
    pub perform-Kept :
        (c : Callback) (s : Session T)
        → EndsNone c
        → Unsaved s.streams
        → Kept s (perform router temporary disk nghttp2 c s)
    unfolding perform on_begin_headers_callback on_header_callback on_data_chunk_recv_callback
        on_frame_recv_callback
    perform-Kept (begin_headers false id address) s e h = (h, refl)
    perform-Kept (begin_headers true id address) s e h =
        (All-append _ s.streams ((address, new_stream id) ∷ []) h (tt, tt), refl)
    perform-Kept (header false id name value) s e h = (h, refl)
    perform-Kept (header true id name value) s e h = header-Kept id name value s h
    perform-Kept (data_chunk id chunk) s e h = update_stream-Kept id _ s (λ stream n. n) h
    perform-Kept (frame submitted type true id) s e h = absurd cc
    perform-Kept (frame submitted headers false id) s e h = (h, refl)
    perform-Kept (frame submitted data_frame false id) s e h = (h, refl)
    perform-Kept (frame submitted goaway false id) s e h = (h, refl)
    perform-Kept (frame submitted other_frame false id) s e h = (h, refl)
    perform-Kept (stream_close id) s e h = close-Kept id s h
