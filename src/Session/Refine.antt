-- ===== src/Session/Refine.antt =====
-- The session does what the map of open streams says.
use h2_server.Prelude.{
  ℕ, Bool, true, false, Option, none, some, ◌≡◌, ◌==◌, refl, sym, ap, ◌∙◌, arith, inl, inr,
  Option-cases, ℕ_discrete, if◌then◌else◌,
}
use h2_server.Session.{UserData, StreamData, Session, find_stream, write_stream, update_stream}
use h2_server.Session.Links.{find_stream-write_stream}
use h2_server.Session.Pointers.{
  if_same, if_other, Linked, Closed, unchanged-PointsTo, Linked-put, Closed-put,
}
use mathlib.Core.Option.{some_inj}
use h2_server.Session.Run.{returns_zero, Model, change_option, put, change_at}

module _ {T : Type 0} (nghttp2 : UserData T) where
  -- nghttp2's pointers are to living objects, each of its stream, and the model has the same streams, with
  -- the same data, and the same of everything else.
  pub record Represents (s : Session T) (m : Model) : Type 0 where
    pub linked : Linked nghttp2 s.user_data s.streams m.open_streams
    pub closed : Closed nghttp2 s.user_data m.open_streams
    pub same_state : s.state ≡ m.state
    pub same_cache : s.file_cache ≡ m.file_cache
    pub same_effects : s.effects ≡ m.effects
    pub same_answers : s.answers ≡ m.answers

  -- Both end in undefined behaviour, or both return the same, and still agree.
  abbrev pub Agree : Option (Session T × Bool) → Option (Model × Bool) → Type 0
  Agree none none = Unit
  Agree (some (s, b)) (some (m, b')) = (b ≡ b') × Represents s m
  Agree _ _ = ⊥

  -- Two streams do not share an object.
  pub apart :
      (s : Session T) (m : Model) (id other a b : ℕ)
      → Represents s m
      → nghttp2.get_user_data id s.user_data ≡ some a
      → nghttp2.get_user_data other s.user_data ≡ some b
      → a ≡ b
      → id ≡ other
  apart s m id other a b r ha hb e =
      let (x, found_x, of_id, _) = r.linked id a ha in
      let (y, found_y, of_other, _) = r.linked other b hb in
      let twice : find_stream a s.streams ≡ some y =
        ap (λ (n : ℕ). find_stream n s.streams) e ∙ found_y in
      cc

  -- An object written in place of that of a stream.
  pub Represents-write :
      (s : Session T) (m : Model) (id a : ℕ) (old new : StreamData)
      → Represents s m
      → nghttp2.get_user_data id s.user_data ≡ some a
      → find_stream a s.streams ≡ some old
      → new.stream_id ≡ id
      → Represents
          (record s { streams = write_stream a new s.streams })
          (record m { open_streams = put id (some new) m.open_streams })
  Represents-write s m id a old new r ha found of_id = record {
    linked =
        Linked-put nghttp2 id (some a) s.user_data s.user_data
          (unchanged-PointsTo nghttp2 id (some a) s.user_data ha) (some new) m.open_streams
          s.streams (write_stream a new s.streams) r.linked
          (λ b e. (new, written b ∙ if_same a b (some new) _ (some_inj.0 e), of_id, refl))
          (λ other b stream ne hb found'.
            written b
            ∙ if_other a b (some new) _ (λ e. ne (apart s m id other a b r ha hb e))
            ∙ found');
    closed =
        Closed-put nghttp2 id (some a) s.user_data s.user_data
          (unchanged-PointsTo nghttp2 id (some a) s.user_data ha) (some new) m.open_streams r.closed
          (λ e. absurd cc);
    same_state = r.same_state;
    same_cache = r.same_cache;
    same_effects = r.same_effects;
    same_answers = r.same_answers;
  }
    where
      written :
          (b : ℕ)
          → find_stream b (write_stream a new s.streams)
            ≡ (if a == b then some new else find_stream b s.streams)
      written b = find_stream-write_stream s.streams a b old new found

  -- The same streams, however they are written.
  pub Represents-ext :
      (s : Session T) (m : Model) (streams : ℕ → Option StreamData)
      → ((id : ℕ) → streams id ≡ m.open_streams id)
      → Represents s m
      → Represents s (record m { open_streams = streams })
  Represents-ext s m streams e r = record {
    linked = λ id address h.
        let (stream, found, of_id, seen) = r.linked id address h in
        (stream, found, of_id, e id ∙ seen);
    closed = λ id h. e id ∙ r.closed id h;
    same_state = r.same_state;
    same_cache = r.same_cache;
    same_effects = r.same_effects;
    same_answers = r.same_answers;
  }

  pub put_same :
      (id other : ℕ) (stream : Option StreamData) (streams : ℕ → Option StreamData)
      → stream ≡ streams id
      → put id stream streams other ≡ streams other
  put_same id other stream streams e = elim (ℕ_discrete id other) [
    | yes same_id ↦
        let here : (id == other) ≡ true = ground arith in rw here (e ∙ ap streams same_id)
    | no other_id ↦ let elsewhere : (id == other) ≡ false = ground arith in rw elsewhere refl
  ]

  -- A callback that changes the data of one stream.
  module _ (s : Session T) (m : Model) (id : ℕ) (r : Represents s m) where
    pub unchanged-Agree :
        (meant : StreamData → StreamData)
        → ((stream : StreamData) → meant stream ≡ stream)
        → Agree (some (s, true)) (some (change_at id meant m, true))
    unchanged-Agree meant e = (
      refl,
      Represents-ext s m _
          (λ other. put_same id other _ m.open_streams (by_option (m.open_streams id))) r,
    )
      where
        by_option : (o : Option StreamData) → change_option meant o ≡ o
        by_option none = refl
        by_option (some stream) = ap some (e stream)

    pub update_stream-Agree :
        (change meant : StreamData → StreamData)
        → ((stream : StreamData) → change stream ≡ meant stream)
        → ((stream : StreamData) → (change stream).stream_id ≡ stream.stream_id)
        → Agree
            (returns_zero (update_stream nghttp2 id change s))
            (some (change_at id meant m, true))
    unfolding update_stream
    update_stream-Agree change meant e keeps =
        elim (Option-cases (nghttp2.get_user_data id s.user_data)) [
          | inl h ↦
              rw (h, update_stream)
                (
                  refl,
                  Represents-ext s m _
                      (λ other.
                        put_same id other _ m.open_streams
                          (ap (change_option meant) (r.closed id h) ∙ sym (r.closed id h)))
                      r,
                )
          | inr (a, h) ↦
              let (stream, found, of_id, seen) = r.linked id a h in
              rw (h, found, seen, update_stream, ← e stream)
                (
                  refl,
                  Represents-write s m id a stream (change stream) r h found (keeps stream ∙ of_id),
                )
        ]
