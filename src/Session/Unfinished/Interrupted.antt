-- ===== src/Session/Unfinished/Interrupted.antt =====
-- A session that is closed before its requests have ended.
use h2_server.Prelude.{
  ℕ, ◌≡◌, refl, ap, subst, ◌∙◌, Bytes, Bool, true, false, Option, none, some, List, [], ◌∷◌, ◌++◌,
  All, append-nil,
}
use h2_server.FileCache.{Probe}
use h2_server.Main.{AppHandler}
use h2_server.Multipart.{Effect}
use h2_server.Router.{Node}
use h2_server.Session.{UserData, Session, headers, data_frame, goaway, other_frame}
use h2_server.Session.Callbacks.{run-Agree}
use h2_server.Session.Refine.{Represents, Agree}
use h2_server.Session.Run.{
  Callback, begin_headers, header, data_chunk, frame, stream_close, perform, run, Model, meaning,
  meanings, Allocates,
}
use h2_server.Session.Unfinished.Quiet.{Kept, perform-Kept}
use h2_server.Session.Unfinished.{destroy_streams, Unsaved, EndsNone, destroy_streams_lem}

module _ {T : Type 0} (nghttp2 : UserData T) (router : Option (Node AppHandler))
    (temporary : ℕ → ℕ → Bytes) (disk : List Effect → Bytes → Probe) where
  run-Kept :
      (cs : List Callback) (s : Session T)
      → All EndsNone cs
      → Unsaved s.streams
      → Kept nghttp2 s (run router temporary disk nghttp2 cs s)
  unfolding run
  run-Kept [] s e h = (h, refl)
  run-Kept (c ∷ cs) s e h =
      next (perform router temporary disk nghttp2 c s)
        (perform-Kept nghttp2 router temporary disk c s e.0 h) (λ s'. run-Kept cs s' e.1)
    where
      later :
          (s' : Session T) (o : Option (Session T × Bool))
          → s'.effects ≡ s.effects
          → Kept nghttp2 s' o
          → Kept nghttp2 s o
      later s' none e k = tt
      later s' (some (s'', b)) e k = (k.0, k.1 ∙ e)

      next :
          (o : Option (Session T × Bool))
          → Kept nghttp2 s o
          → ((s' : Session T)
              → Unsaved s'.streams
              → Kept nghttp2 s' (run router temporary disk nghttp2 cs s'))
          → Kept nghttp2 s (elim o [
            | none ↦ none
            | some (s', false) ↦ some (s', false)
            | some (s', true) ↦ run router temporary disk nghttp2 cs s'
          ])
      next none k go = tt
      next (some (s', false)) k go = k
      next (some (s', true)) k go =
          later s' (run router temporary disk nghttp2 cs s') k.1 (go s' k.0)

  -- Without the end of a request no callback fails.
  meanings-succeed :
      (cs : List Callback) (m : Model)
      → All EndsNone cs
      → (m' : Model) × (meanings router temporary disk cs m ≡ some (m', true))
  unfolding meanings meaning
  meanings-succeed [] m e = (m, refl)
  meanings-succeed (begin_headers false id address ∷ cs) m e = meanings-succeed cs _ e.1
  meanings-succeed (begin_headers true id address ∷ cs) m e = meanings-succeed cs _ e.1
  meanings-succeed (header false id name value ∷ cs) m e = meanings-succeed cs _ e.1
  meanings-succeed (header true id name value ∷ cs) m e = meanings-succeed cs _ e.1
  meanings-succeed (data_chunk id chunk ∷ cs) m e = meanings-succeed cs _ e.1
  meanings-succeed (frame submitted type true id ∷ cs) m e = absurd (cc (e.0))
  meanings-succeed (frame submitted headers false id ∷ cs) m e = meanings-succeed cs _ e.1
  meanings-succeed (frame submitted data_frame false id ∷ cs) m e = meanings-succeed cs _ e.1
  meanings-succeed (frame submitted goaway false id ∷ cs) m e = meanings-succeed cs _ e.1
  meanings-succeed (frame submitted other_frame false id ∷ cs) m e = meanings-succeed cs _ e.1
  meanings-succeed (stream_close id ∷ cs) m e = meanings-succeed cs _ e.1

  run-succeeds :
      (cs : List Callback) (s : Session T) (m : Model)
      → Represents nghttp2 s m
      → Allocates router temporary disk nghttp2 cs s
      → All EndsNone cs
      → (s' : Session T) × (run router temporary disk nghttp2 cs s ≡ some (s', true))
  run-succeeds cs s m r fresh e =
      let (m', meant) = meanings-succeed cs m e in
      by_results m' (run router temporary disk nghttp2 cs s) (
        subst (Agree nghttp2 (run router temporary disk nghttp2 cs s)) meant
          (run-Agree nghttp2 router temporary disk cs s m r fresh))
    where
      by_results :
          (m' : Model) (o : Option (Session T × Bool))
          → Agree nghttp2 o (some (m', true))
          → (s' : Session T) × (o ≡ some (s', true))
      by_results m' none a = absurd a
      by_results m' (some (s', b)) a = (s', rw (a.0) refl)

  -- Let a map of streams represent a session, with each stream allocated where none lives, and let no
  -- parser have a file. However many requests are begun, whatever headers and data come for them and
  -- whichever streams are closed: as long as no frame ends a request, no callback fails, nothing
  -- happens to files, and nothing does when the session is destroyed.
  pub run-unfinished :
      (cs : List Callback) (s : Session T) (m : Model)
      → Represents nghttp2 s m
      → Allocates router temporary disk nghttp2 cs s
      → Unsaved s.streams
      → All EndsNone cs
      → (s' : Session T) × (run router temporary disk nghttp2 cs s ≡ some (s', true))
        × (s'.effects ++ destroy_streams s'.streams ≡ s.effects)
  run-unfinished cs s m r fresh h e =
      let (s', ran) = run-succeeds cs s m r fresh e in
      let kept = subst (Kept nghttp2 s) ran (run-Kept cs s e h) in
      (
        s',
        ran,
        ap (λ l. s'.effects ++ l) (destroy_streams_lem s'.streams kept.0)
            ∙ append-nil s'.effects
            ∙ kept.1,
      )
