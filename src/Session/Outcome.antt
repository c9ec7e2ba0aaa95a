-- ===== src/Session/Outcome.antt =====
-- What a whole request leaves, on the map of open streams.
use h2_server.Prelude.{
  bytes, ℕ, Bytes, true, Option, none, some, List, [], ◌∷◌, ◌++◌, ◌≡◌, refl, ap, ap₂, ◌∙◌,
}
use h2_server.FileCache.{Probe, Cache}
use h2_server.Handler.{error_reply, Handled, call}
use h2_server.Main.{AppHandler, routes, served, resolve-routes}
use h2_server.Multipart.{Parser, Effect}
use h2_server.Router.{Method}
use h2_server.Router.Segments.{split_path_segments}
use h2_server.Session.{
  StreamData, FrameType, headers, data_frame, goaway, other_frame, handle_request,
}
use h2_server.Session.Run.{header, frame, Model, answer, answered, meaning, meanings}
use h2_server.Session.Collect.{
  Others, AreOther, fields, type_headers, behind_path_callbacks, body_callbacks, request, concat,
  body_bytes, parser_for, collected, Holds, collect_method, collect_path, collect_fields,
  collect_type, collect_pieces,
}

module _ (temporary : ℕ → Bytes) (disk : List Effect → Bytes → Probe) where
  abbrev pub handled_by : Option Parser → Bytes → Cache → Option AppHandler × Bytes → Handled
  handled_by parser body cache found = elim (found.0) [
    | none ↦ record { file_cache = cache; mime_parser = parser; effects = []; answer = error_reply }
    | some handler ↦ call temporary disk handler cache parser body found.1
  ]

  -- What is made of a request: by `served`, with the parser and the whole body.
  abbrev pub outcome : Method → Bytes → Option Bytes → Bytes → Cache → Handled
  outcome method uri type body cache =
      handled_by (parser_for method type) body cache (served method (split_path_segments uri))

module _ (temporary : ℕ → ℕ → Bytes) (disk : List Effect → Bytes → Probe) where
  handle_request-outcome :
      (id : ℕ) (method : Method) (uri : Bytes) (type : Option Bytes) (body : Bytes) (cache : Cache)
      → handle_request temporary disk routes method cache (collected id method uri type body)
        ≡ outcome (temporary id) disk method uri type body cache
  unfolding handle_request
  handle_request-outcome id method uri type body cache =
      ap (handled_by (temporary id) disk (parser_for method type) body cache)
        (resolve-routes method uri)

  answer_collected :
      (id : ℕ) (method : Method) (uri : Bytes) (type : Option Bytes) (body : Bytes) (m : Model)
      → answer (some routes) temporary disk true id (some (collected id method uri type body)) m
        ≡ some (
          answered id
              (collected id method uri type body)
              (outcome (temporary id) disk method uri type body m.file_cache)
              m,
          true,
        )
  unfolding answer
  answer_collected id method uri type body m =
      ap (λ h. some (answered id (collected id method uri type body) h m, true))
        (handle_request-outcome id method uri type body m.file_cache)

  abbrev EndsRequest : FrameType → Type 0
  EndsRequest headers = Unit
  EndsRequest data_frame = Unit
  EndsRequest _ = ⊥

  last_step :
      (type : FrameType) (id : ℕ) (stream : StreamData) (m m' : Model)
      → EndsRequest type
      → m.open_streams id ≡ some stream
      → answer (some routes) temporary disk true id (some stream) m ≡ some (m', true)
      → meanings (some routes) temporary disk (frame true type true id ∷ []) m ≡ some (m', true)
  unfolding meanings meaning
  last_step headers id stream m m' ends here e = rw (here, e, meanings, meaning) refl
  last_step data_frame id stream m m' ends here e = rw (here, e, meanings, meaning) refl
  last_step goaway id stream m m' ends here e = absurd ends
  last_step other_frame id stream m m' ends here e = absurd ends

  -- The body, behind all the fields.
  body_answered :
      (id : ℕ) (method : Method) (uri : Bytes) (type : Option Bytes)
      (body : Option (List (Option Bytes))) (base m : Model)
      → Holds id (collected id method uri type []) base m
      → (m' : Model) × Holds id (collected id method uri type (body_bytes body)) base m'
        × (meanings (some routes) temporary disk (body_callbacks id body) m
            ≡ some (
              answered id
                  (collected id method uri type (body_bytes body))
                  (outcome (temporary id) disk method uri type (body_bytes body) m'.file_cache)
                  m',
              true,
            ))
  unfolding meanings meaning
  body_answered id method uri type none base m h =
      (m, h, last_step headers id _ m _ tt h.here (answer_collected id method uri type [] m))
  body_answered id method uri type (some pieces) base m h =
      let (m', (holds, steps)) =
        collect_pieces (some routes) temporary disk id method uri type pieces [] base m h in
      (
        m',
        holds,
        steps (frame true data_frame true id ∷ [])
            ∙ last_step data_frame id _ m' _ tt holds.here
                (answer_collected id method uri type (concat pieces) m'),
      )

  -- What a request is to leave.
  pub record Left (id : ℕ) (handled : Handled) (m m' : Model) : Type 0 where
    pub one_answer : m'.answers ≡ m.answers ++ (id, handled.answer) ∷ []
    pub its_effects : m'.effects ≡ m.effects ++ handled.effects
    pub its_cache : m'.file_cache ≡ handled.file_cache

  -- The whole request, on the map of streams.
  pub meanings-request :
      (id address : ℕ) (method : Method) (uri : Bytes) (type : Option Bytes) (others : Others)
      (body : Option (List (Option Bytes))) (m : Model)
      → AreOther others
      → (m' : Model) × (meanings
            (some routes)
            temporary
            disk
            (request id address method uri type others body)
            m
          ≡ some (m', true))
        × Left id (outcome (temporary id) disk method uri type (body_bytes body) m.file_cache) m m'
  meanings-request id address method uri type others body m (other1, other2, other3) =
      let (m1, (h1, s1)) = collect_method (some routes) temporary disk id address method m in
      let (m2, (h2, s2)) =
        collect_fields (some routes) temporary disk id others.behind_method _ m m1 other1 h1 in
      let (m3, (h3, s3)) = collect_path (some routes) temporary disk id method uri m m2 h2 in
      let (m4, (h4, s4)) =
        collect_fields (some routes) temporary disk id others.behind_path _ m m3 other2 h3 in
      let (m5, (h5, s5)) = collect_type (some routes) temporary disk id method uri type m m4 h4 in
      let (m6, (h6, s6)) =
        collect_fields (some routes) temporary disk id others.behind_type _ m m5 other3 h5 in
      let (m7, h7, ended) = body_answered id method uri type body m m6 h6 in
      let same_outcome =
        ap (outcome (temporary id) disk method uri type (body_bytes body)) h7.same_cache in
      let typed = fields id others.behind_type ++ body_callbacks id body in
      (
        answered id (collected id method uri type (body_bytes body))
            (outcome (temporary id) disk method uri type (body_bytes body) m7.file_cache) m7,
        s1 (
              fields id others.behind_method
              ++ (header true id (bytes ":path") uri ∷ behind_path_callbacks id type others body))
            ∙ s2 (header true id (bytes ":path") uri ∷ behind_path_callbacks id type others body)
            ∙ s3 (behind_path_callbacks id type others body)
            ∙ s4 (type_headers id type ++ typed)
            ∙ s5 typed
            ∙ s6 (body_callbacks id body)
            ∙ ended,
        record {
          one_answer =
              ap₂ (λ l (h : Handled). l ++ (id, h.answer) ∷ []) h7.same_answers same_outcome;
          its_effects = ap₂ (λ l (h : Handled). l ++ h.effects) h7.same_effects same_outcome;
          its_cache = ap (λ (h : Handled). h.file_cache) same_outcome;
        },
      )
