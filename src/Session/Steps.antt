-- ===== src/Session/Steps.antt =====
-- The callbacks on headers, on new streams and on closed ones agree with their meaning.
use h2_server.Prelude.{
  ℕ, Bytes, bytes, same, Bool, true, false, none, some, List, [], ◌∷◌, ◌++◌, ◌≡◌, ◌≢◌, ◌==◌, refl,
  sym, ap, ap₂, append-nil, ◌∙◌, subst, if◌then◌else◌, arith, Bool-cases, inl, inr, Option-cases,
}
use h2_server.Multipart.{Effect}
use h2_server.Session.{
  UserData, StreamData, new_stream, Session, method_header, content_type_header, find_stream,
  delete_stream_data, destroy, on_header_callback, on_stream_close_callback,
}
use h2_server.Session.Links.{find_stream-append, find_stream-delete}
use h2_server.Session.Pointers.{if_same, if_other, Linked-put, Closed-put}
use mathlib.Core.Option.{some_inj}
use h2_server.Session.Run.{returns_zero, header_change, Model, put, change_at}
use h2_server.Session.Refine.{
  Represents, Agree, apart, Represents-ext, put_same, unchanged-Agree, update_stream-Agree,
}

not_free :
    (streams : List (ℕ × StreamData)) (a b : ℕ) (stream : StreamData)
    → find_stream a streams ≡ none
    → find_stream b streams ≡ some stream
    → a ≢ b
not_free streams a b stream free found e =
    let twice : find_stream a streams ≡ some stream =
      ap (λ (n : ℕ). find_stream n streams) e ∙ found in
    cc

module _ {T : Type 0} (nghttp2 : UserData T) where
  keeps_method :
      (value : Bytes) (stream : StreamData)
      → (method_header value stream).stream_id ≡ stream.stream_id
  unfolding method_header
  keeps_method value stream = ground arith

  keeps_type :
      (value : Bytes) (stream : StreamData)
      → (content_type_header value stream).stream_id ≡ stream.stream_id
  unfolding content_type_header
  keeps_type value stream = ground arith

  pub header-Agree :
      (is_request : Bool) (id : ℕ) (name value : Bytes) (s : Session T) (m : Model)
      → Represents nghttp2 s m
      → Agree nghttp2 (returns_zero (on_header_callback nghttp2 is_request id name value s)) (
          if is_request
          then some (change_at id (header_change name value) m, true)
          else some (m, true))
  unfolding on_header_callback header_change
  header-Agree false id name value s m r = (refl, r)
  header-Agree true id name value s m r = elim (Bool-cases (same name (bytes ":path"))) [
    | inl path ↦
        rw (path, on_header_callback)
          (update_stream-Agree nghttp2 s m id r _ (header_change name value)
            (λ stream. rw path refl) (λ stream. refl))
    | inr no_path ↦ elim (Bool-cases (same name (bytes ":method"))) [
      | inl method ↦
          rw (no_path, method, on_header_callback)
            (update_stream-Agree nghttp2 s m id r _ (header_change name value)
              (λ stream. rw (no_path, method) refl) (keeps_method value))
      | inr no_method ↦ elim (Bool-cases (same name (bytes "content-type"))) [
        | inl type ↦
            rw (no_path, no_method, type, on_header_callback)
              (update_stream-Agree nghttp2 s m id r _ (header_change name value)
                (λ stream. rw (no_path, no_method, type) refl) (keeps_type value))
        | inr no_type ↦
            rw (no_path, no_method, no_type, on_header_callback)
              (unchanged-Agree nghttp2 s m id r (header_change name value)
                (λ stream. rw (no_path, no_method, no_type) refl))
      ]
    ]
  ]

  -- A new object.
  pub Represents-new :
      (s : Session T) (m : Model) (id address : ℕ)
      → Represents nghttp2 s m
      → find_stream address s.streams ≡ none
      → Represents nghttp2
          (record s {
            user_data = nghttp2.set_user_data id address s.user_data;
            streams = s.streams ++ (address, new_stream id) ∷ [];
          })
          (record m { open_streams = put id (some (new_stream id)) m.open_streams })
  Represents-new s m id address r free = record {
    linked =
        Linked-put nghttp2 id (some address) s.user_data _
          (λ other. nghttp2.set_law id address other s.user_data) (some (new_stream id))
          m.open_streams s.streams (s.streams ++ (address, new_stream id) ∷ []) r.linked
          (λ b e. (
            new_stream id,
            added b ∙ if_same address b (some (new_stream id)) _ (some_inj.0 e),
            refl,
            refl,
          ))
          (λ other b stream ne h found.
            added b
            ∙ if_other address b (some (new_stream id)) _
                (not_free s.streams address b stream free found)
            ∙ found);
    closed =
        Closed-put nghttp2 id (some address) s.user_data _
          (λ other. nghttp2.set_law id address other s.user_data) (some (new_stream id))
          m.open_streams r.closed (λ e. absurd cc);
    same_state = r.same_state;
    same_cache = r.same_cache;
    same_effects = r.same_effects;
    same_answers = r.same_answers;
  }
    where
      added :
          (b : ℕ)
          → find_stream b (s.streams ++ (address, new_stream id) ∷ [])
            ≡ (if address == b then some (new_stream id) else find_stream b s.streams)
      added b = find_stream-append s.streams address b (new_stream id) free

  -- A closed stream, whose object is deleted.
  Represents-close :
      (s : Session T) (m : Model) (id a : ℕ)
      → Represents nghttp2 s m
      → nghttp2.get_user_data id s.user_data ≡ some a
      → Represents nghttp2
          (record s {
            streams = delete_stream_data a s.streams;
            user_data = nghttp2.close id s.user_data;
            effects = s.effects ++ destroy (find_stream a s.streams);
          })
          (record m {
            open_streams = put id none m.open_streams;
            effects = m.effects ++ destroy (m.open_streams id);
          })
  Represents-close s m id a r ha = record {
    linked =
        Linked-put nghttp2 id none s.user_data _ (λ other. nghttp2.close_law id other s.user_data)
          none m.open_streams s.streams (delete_stream_data a s.streams) r.linked (λ b e. absurd cc)
          (λ other b stream ne h found.
            find_stream-delete s.streams a b (λ e. ne (apart nghttp2 s m id other a b r ha h e))
            ∙ found);
    closed =
        Closed-put nghttp2 id none s.user_data _ (λ other. nghttp2.close_law id other s.user_data)
          none m.open_streams r.closed (λ e. refl);
    same_state = r.same_state;
    same_cache = r.same_cache;
    same_effects =
        let (stream, found, of_id, seen) = r.linked id a ha in
        ap₂ (λ e o. e ++ destroy o) r.same_effects (found ∙ sym seen);
    same_answers = r.same_answers;
  }

  pub stream_close-Agree :
      (id : ℕ) (s : Session T) (m : Model)
      → Represents nghttp2 s m
      → Agree nghttp2 (returns_zero (on_stream_close_callback nghttp2 id s)) (
          some (
            record m {
              open_streams = put id none m.open_streams;
              effects = m.effects ++ destroy (m.open_streams id);
            },
            true,
          ))
  unfolding on_stream_close_callback destroy
  stream_close-Agree id s m r = elim (Option-cases (nghttp2.get_user_data id s.user_data)) [
    | inr (a, h) ↦ rw (h, on_stream_close_callback) (refl, Represents-close s m id a r h)
    | inl h ↦
        let unknown = r.closed id h in
        rw (h, on_stream_close_callback)
          (
            refl,
            subst
                (λ (e : List Effect).
                  Represents nghttp2 s
                    (record m { open_streams = put id none m.open_streams; effects = e }))
                (sym (ap (λ o. m.effects ++ destroy o) unknown ∙ append-nil m.effects))
                (Represents-ext nghttp2 s m _
                  (λ other. put_same nghttp2 id other none m.open_streams (sym unknown)) r),
          )
  ]
