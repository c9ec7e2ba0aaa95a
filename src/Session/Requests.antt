-- ===== src/Session/Requests.antt =====
-- Whole requests on the session: from the first header to the answer.
use h2_server.Session.Refine.{Represents, Agree}
use h2_server.Session.Callbacks.{run-Agree}
use h2_server.Prelude.{
  subst, sym, ℕ, Bytes, Bool, true, false, Option, none, some, List, [], ◌∷◌, ◌++◌, ◌≡◌, ap, ap₂,
  ◌∙◌, map,
}
use h2_server.FileCache.{Probe}
use h2_server.Handler.{Handled}
use h2_server.Main.{routes}
use h2_server.Multipart.{Effect}
use h2_server.Router.{Method}
use h2_server.Session.Run.{
  Callback, stream_close, perform, AllocatesAt, Continue, Allocates, run, begin_headers, header,
  data_chunk, frame, Model,
}
use h2_server.Session.{UserData, Session, find_stream}
use h2_server.Session.Collect.{
  Others, AreOther, fields, piece, type_headers, body_callbacks, behind_begin, request, body_bytes,
}
use h2_server.Session.Outcome.{outcome, meanings-request}

-- A callback that allocates no stream.
abbrev pub IsQuiet : Callback → Type 0
IsQuiet (begin_headers true id address) = ⊥
IsQuiet _ = Unit

abbrev pub AreQuiet : List Callback → Type 0
AreQuiet [] = Unit
AreQuiet (c ∷ cs) = IsQuiet c × AreQuiet cs

AreQuiet-append : (xs ys : List Callback) → AreQuiet xs → AreQuiet ys → AreQuiet (xs ++ ys)
AreQuiet-append [] ys q r = r
AreQuiet-append (x ∷ xs) ys q r = (q.0, AreQuiet-append xs ys q.1 r)

fields-AreQuiet : (id : ℕ) (others : List (Bytes × Bytes)) → AreQuiet (fields id others)
fields-AreQuiet id [] = tt
fields-AreQuiet id (field ∷ others) = (tt, fields-AreQuiet id others)

pieces-AreQuiet : (id : ℕ) (pieces : List (Option Bytes)) → AreQuiet (map (piece id) pieces)
pieces-AreQuiet id [] = tt
pieces-AreQuiet id (none ∷ pieces) = (tt, pieces-AreQuiet id pieces)
pieces-AreQuiet id (some chunk ∷ pieces) = (tt, pieces-AreQuiet id pieces)

body-AreQuiet : (id : ℕ) (body : Option (List (Option Bytes))) → AreQuiet (body_callbacks id body)
body-AreQuiet id none = (tt, tt)
body-AreQuiet id (some pieces) =
    (tt, AreQuiet-append (map (piece id) pieces) _ (pieces-AreQuiet id pieces) (tt, tt))

type-AreQuiet : (id : ℕ) (type : Option Bytes) → AreQuiet (type_headers id type)
type-AreQuiet id none = tt
type-AreQuiet id (some type) = (tt, tt)

rest-AreQuiet :
    (id : ℕ) (method : Method) (uri : Bytes) (type : Option Bytes) (others : Others)
    (body : Option (List (Option Bytes)))
    → AreQuiet (behind_begin id method uri type others body)
rest-AreQuiet id method uri type others body = (
  tt,
  AreQuiet-append (fields id others.behind_method) _ (fields-AreQuiet id others.behind_method) (
    tt,
    AreQuiet-append (fields id others.behind_path) _ (fields-AreQuiet id others.behind_path) (
        AreQuiet-append (type_headers id type) _ (type-AreQuiet id type) (
          AreQuiet-append (fields id others.behind_type) _ (fields-AreQuiet id others.behind_type)
            (body-AreQuiet id body))),
  ),
)

module _ {T : Type 0} (nghttp2 : UserData T) (temporary : ℕ → ℕ → Bytes)
    (disk : List Effect → Bytes → Probe) where
  quiet-AllocatesAt :
      (c : Callback) (s : Session T)
      → IsQuiet c
      → AllocatesAt (some routes) temporary disk nghttp2 c s
  quiet-AllocatesAt (begin_headers false id address) s q = tt
  quiet-AllocatesAt (begin_headers true id address) s q = absurd q
  quiet-AllocatesAt (header is_request id name value) s q = tt
  quiet-AllocatesAt (data_chunk id chunk) s q = tt
  quiet-AllocatesAt (frame submitted type end_stream id) s q = tt
  quiet-AllocatesAt (stream_close id) s q = tt

  Continue_all :
      (o : Option (Session T × Bool)) (P : Session T → Type 0)
      → ((s : Session T) → P s)
      → Continue (some routes) temporary disk nghttp2 o P
  Continue_all none P all = tt
  Continue_all (some (s, b)) P all = all s

  pub quiet-Allocates :
      (cs : List Callback) (s : Session T)
      → AreQuiet cs
      → Allocates (some routes) temporary disk nghttp2 cs s
  quiet-Allocates [] s q = tt
  quiet-Allocates (c ∷ cs) s q = (
    quiet-AllocatesAt c s q.0,
    Continue_all (perform (some routes) temporary disk nghttp2 c s) _
        (λ s'. quiet-Allocates cs s' q.1),
  )

  agreed :
      (o : Option (Session T × Bool)) (m : Model)
      → Agree nghttp2 o (some (m, true))
      → (s : Session T) × (o ≡ some (s, true)) × Represents nghttp2 s m
  agreed none m a = absurd a
  agreed (some (s, b)) m a = (s, ap (λ (x : Bool). some (s, x)) a.0, a.1)

  module _ (s : Session T) (m : Model) (id address : ℕ) (method : Method) (uri : Bytes)
      (type : Option Bytes) (others : Others) (body : Option (List (Option Bytes))) where
    request-Allocates :
        find_stream address s.streams ≡ none
        → Allocates
            (some routes)
            temporary
            disk
            nghttp2
            (request id address method uri type others body)
            s
    request-Allocates free = (
      free,
      Continue_all (perform (some routes) temporary disk nghttp2 (begin_headers true id address) s)
          _
          (λ s'.
            quiet-Allocates (behind_begin id method uri type others body) s'
              (rest-AreQuiet id method uri type others body)),
    )

    pub run-request :
        AreOther others
        → Represents nghttp2 s m
        → find_stream address s.streams ≡ none
        → let handled =
            outcome (temporary id) disk method uri type (body_bytes body) s.file_cache in
          (s' : Session T) × (run
              (some routes)
              temporary
              disk
              nghttp2
              (request id address method uri type others body)
              s
            ≡ some (s', true))
          × (s'.answers ≡ s.answers ++ (id, handled.answer) ∷ [])
          × (s'.effects ≡ s.effects ++ handled.effects)
          × (s'.file_cache ≡ handled.file_cache)
    run-request unread r free =
        let (m', meant, left) =
          meanings-request temporary disk id address method uri type others body m unread in
        let agree =
          subst
            (Agree nghttp2 (
              run (some routes) temporary disk nghttp2
                (request id address method uri type others body) s))
            meant
            (run-Agree nghttp2 (some routes) temporary disk
              (request id address method uri type others body) s m r (request-Allocates free)) in
        let (s', ran, r') = agreed _ m' agree in
        let same_outcome =
          ap (outcome (temporary id) disk method uri type (body_bytes body)) (sym r.same_cache) in
        (
          s',
          ran,
          r'.same_answers
              ∙ left.one_answer
              ∙ ap₂ (λ l (h : Handled). l ++ (id, h.answer) ∷ []) (sym r.same_answers) same_outcome,
          r'.same_effects
              ∙ left.its_effects
              ∙ ap₂ (λ l (h : Handled). l ++ h.effects) (sym r.same_effects) same_outcome,
          r'.same_cache ∙ left.its_cache ∙ ap (λ (h : Handled). h.file_cache) same_outcome,
        )
