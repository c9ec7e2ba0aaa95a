-- ===== src/Session/Callbacks.antt =====
-- Each callback, and any run of them, agrees with its meaning.
use h2_server.Prelude.{
  ℕ, Bytes, Bool, true, false, Option, none, some, List, [], ◌∷◌, ◌++◌, ◌≡◌, refl, sym, ap, ap₂,
  subst, inl, inr, Option-cases,
}
use h2_server.FileCache.{Probe, Cache}
use h2_server.Handler.{Handled}
use h2_server.Connection.{disconnecting}
use h2_server.Main.{AppHandler}
use h2_server.Multipart.{Effect}
use h2_server.Router.{Method, Node}
use h2_server.Session.{
  UserData, StreamData, Session, FrameType, headers, data_frame, goaway, other_frame, find_stream,
  on_begin_headers_callback, on_data_chunk_recv_callback, on_frame_recv_callback, on_end_stream,
  on_request_recv, store_handled, handle_request,
}
use h2_server.Session.Run.{
  Callback, begin_headers, header, data_chunk, frame, stream_close, Model, answer, answered,
  meaning, meanings, perform, run, AllocatesAt, Continue, Allocates,
}
use h2_server.Session.Refine.{Represents, Agree, Represents-write, update_stream-Agree}
use h2_server.Session.Steps.{header-Agree, Represents-new, stream_close-Agree}

module _ {T : Type 0} (nghttp2 : UserData T) where
  module _ (temporary : ℕ → ℕ → Bytes) (disk : List Effect → Bytes → Probe) where
    store-Agree :
        (router : Option (Node AppHandler)) (id a : ℕ) (stream : StreamData) (s : Session T)
        (m : Model) (handled : Handled)
        → Represents nghttp2 s m
        → nghttp2.get_user_data id s.user_data ≡ some a
        → find_stream a s.streams ≡ some stream
        → stream.stream_id ≡ id
        → Represents nghttp2
            (store_handled nghttp2 router temporary disk a stream handled s)
            (answered id stream handled m)
    unfolding store_handled
    store-Agree router id a stream s m handled r h found of_id =
        let w =
          Represents-write nghttp2 s m id a stream
            (record stream { mime_parser = handled.mime_parser; upload_file_buffer = [] }) r h found
            of_id in
        record {
          linked = w.linked;
          closed = w.closed;
          same_state = r.same_state;
          same_cache = refl;
          same_effects = ap (λ e. e ++ handled.effects) r.same_effects;
          same_answers = ap₂ (λ l (n : ℕ). l ++ (n, handled.answer) ∷ []) r.same_answers of_id;
        }

    request-Agree :
        (router : Option (Node AppHandler)) (submitted : Bool) (id a : ℕ) (stream : StreamData)
        (s : Session T) (m : Model) (method : Option Method)
        → stream.method ≡ method
        → Represents nghttp2 s m
        → nghttp2.get_user_data id s.user_data ≡ some a
        → find_stream a s.streams ≡ some stream
        → stream.stream_id ≡ id
        → Agree nghttp2
            (on_request_recv nghttp2 router temporary disk submitted a stream s)
            (answer router temporary disk submitted id (some stream) m)
    unfolding on_request_recv answer
    request-Agree none submitted id a stream s m method e r h found of_id = (refl, r)
    request-Agree (some root) submitted id a stream s m none e r h found of_id =
        rw (e, on_request_recv, answer) tt
    request-Agree (some root) submitted id a stream s m (some method) e r h found of_id =
        rw (e, on_request_recv, answer)
          (
            refl,
            subst
                (λ (c : Cache).
                  Represents nghttp2
                    (store_handled nghttp2 (some root) temporary disk a stream
                      (handle_request temporary disk root method c stream) s)
                    (answered id stream
                      (handle_request temporary disk root method m.file_cache stream) m))
                (sym r.same_cache)
                (store-Agree (some root) id a stream s m
                  (handle_request temporary disk root method m.file_cache stream) r h found of_id),
          )

  module _ (router : Option (Node AppHandler)) (temporary : ℕ → ℕ → Bytes)
      (disk : List Effect → Bytes → Probe) where
    end_stream-Agree :
        (submitted : Bool) (id : ℕ) (s : Session T) (m : Model)
        → Represents nghttp2 s m
        → Agree nghttp2
            (on_end_stream nghttp2 router temporary disk submitted id s)
            (answer router temporary disk submitted id (m.open_streams id) m)
    unfolding on_end_stream answer
    end_stream-Agree submitted id s m r =
        elim (Option-cases (nghttp2.get_user_data id s.user_data)) [
          | inl h ↦ rw (h, r.closed id h, on_end_stream) (refl, r)
          | inr (a, h) ↦
              let (stream, found, of_id, seen) = r.linked id a h in
              rw (h, found, seen, on_end_stream)
                (request-Agree temporary disk router submitted id a stream s m stream.method refl r
                  h found of_id)
        ]

    goaway-Represents :
        (s : Session T) (m : Model)
        → Represents nghttp2 s m
        → Represents nghttp2
            (record s { state = disconnecting })
            (record m { state = disconnecting })
    goaway-Represents s m r = record {
      linked = r.linked;
      closed = r.closed;
      same_state = refl;
      same_cache = r.same_cache;
      same_effects = r.same_effects;
      same_answers = r.same_answers;
    }

    frame-Agree :
        (submitted : Bool) (type : FrameType) (end_stream : Bool) (id : ℕ) (s : Session T)
        (m : Model)
        → Represents nghttp2 s m
        → Agree nghttp2
            (on_frame_recv_callback nghttp2 router temporary disk submitted type end_stream id s)
            (meaning router temporary disk (frame submitted type end_stream id) m)
    unfolding on_frame_recv_callback meaning
    frame-Agree submitted headers true id s m r = end_stream-Agree submitted id s m r
    frame-Agree submitted data_frame true id s m r = end_stream-Agree submitted id s m r
    frame-Agree submitted headers false id s m r = (refl, r)
    frame-Agree submitted data_frame false id s m r = (refl, r)
    frame-Agree submitted goaway end_stream id s m r = (refl, goaway-Represents s m r)
    frame-Agree submitted other_frame end_stream id s m r = (refl, r)

    perform-Agree :
        (c : Callback) (s : Session T) (m : Model)
        → Represents nghttp2 s m
        → AllocatesAt router temporary disk nghttp2 c s
        → Agree nghttp2
            (perform router temporary disk nghttp2 c s)
            (meaning router temporary disk c m)
    unfolding perform meaning on_begin_headers_callback on_data_chunk_recv_callback
    perform-Agree (begin_headers false id address) s m r free = (refl, r)
    perform-Agree (begin_headers true id address) s m r free =
        (refl, Represents-new nghttp2 s m id address r free)
    perform-Agree (header false id name value) s m r free =
        header-Agree nghttp2 false id name value s m r
    perform-Agree (header true id name value) s m r free =
        header-Agree nghttp2 true id name value s m r
    perform-Agree (data_chunk id chunk) s m r free =
        update_stream-Agree nghttp2 s m id r
          (λ stream. record stream { upload_file_buffer = stream.upload_file_buffer ++ chunk }) _
          (λ stream. refl) (λ stream. refl)
    perform-Agree (frame submitted type end_stream id) s m r free =
        frame-Agree submitted type end_stream id s m r
    perform-Agree (stream_close id) s m r free = stream_close-Agree nghttp2 id s m r

    -- Whatever callbacks nghttp2 makes, in any order and number, as long as a new stream is allocated
    -- where none lives: a session that represents a map of open streams does what the callbacks mean for
    -- the map. Either both runs are undefined, or both return the same and the session again represents
    -- the map, with the same answers, effects and cache.
    pub run-Agree :
        (cs : List Callback) (s : Session T) (m : Model)
        → Represents nghttp2 s m
        → Allocates router temporary disk nghttp2 cs s
        → Agree nghttp2
            (run router temporary disk nghttp2 cs s)
            (meanings router temporary disk cs m)
    unfolding run meanings
    run-Agree [] s m r fresh = (refl, r)
    run-Agree (c ∷ cs) s m r fresh =
        go (perform router temporary disk nghttp2 c s) (meaning router temporary disk c m)
          (perform-Agree c s m r fresh.0) fresh.1 (run-Agree cs)
      where
        go :
            (o : Option (Session T × Bool)) (q : Option (Model × Bool))
            → Agree nghttp2 o q
            → Continue router temporary disk nghttp2 o
                (λ s'. Allocates router temporary disk nghttp2 cs s')
            → ((s' : Session T) (m' : Model)
                → Represents nghttp2 s' m'
                → Allocates router temporary disk nghttp2 cs s'
                → Agree nghttp2
                    (run router temporary disk nghttp2 cs s')
                    (meanings router temporary disk cs m'))
            → Agree nghttp2
                (elim o [
                  | none ↦ none
                  | some (s', false) ↦ some (s', false)
                  | some (s', true) ↦ run router temporary disk nghttp2 cs s'
                ])
                (elim q [
                  | none ↦ none
                  | some (m', false) ↦ some (m', false)
                  | some (m', true) ↦ meanings router temporary disk cs m'
                ])
        go none none a fresh more = tt
        go none (some x) a fresh more = elim a [ ]
        go (some (s', b)) none a fresh more = elim a [ ]
        go (some (s', true)) (some (m', true)) a fresh more = more s' m' a.1 fresh
        go (some (s', false)) (some (m', false)) a fresh more = (refl, a.1)
        go (some (s', true)) (some (m', false)) a fresh more = absurd cc
        go (some (s', false)) (some (m', true)) a fresh more = absurd cc
