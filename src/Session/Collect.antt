-- ===== src/Session/Collect.antt =====
-- The callbacks of one request, and what its stream collects from them.
use h2_server.Prelude.{
  All, ℕ, Bytes, bytes, same, true, false, Option, none, some, List, [], ◌∷◌, ◌++◌, ◌≡◌, refl, sym,
  ap, ◌∙◌, subst, map, append-nil, append_assoc, ==_refl,
}
use h2_server.FileCache.{Probe}
use h2_server.Main.{AppHandler}
use h2_server.Multipart.{Parser, Effect, fresh, extract_boundary}
use h2_server.Router.{Method, get, post, Node}
use h2_server.Session.{
  StreamData, new_stream, headers, data_frame, method_header, content_type_header,
}
use h2_server.Session.Run.{
  Callback, begin_headers, header, data_chunk, frame, header_change, Model, change_at,
  change_option, put, meaning, meanings,
}

abbrev pub method_name : Method → Bytes
method_name get = bytes "GET"
method_name post = bytes "POST"

-- The callbacks that one request makes. `others` is the fields that the program does not read, such as
-- `:scheme`, behind `:method`, behind `:path` and behind the content type. A body is, in any order,
-- chunks of data and the ends of DATA frames that are not the last one.
pub record Others : Type 0 where
  pub behind_method : List (Bytes × Bytes)
  pub behind_path : List (Bytes × Bytes)
  pub behind_type : List (Bytes × Bytes)

abbrev pub type_headers : ℕ → Option Bytes → List Callback
type_headers id none = []
type_headers id (some type) = header true id (bytes "content-type") type ∷ []

abbrev pub fields : ℕ → List (Bytes × Bytes) → List Callback
fields id [] = []
fields id ((name, value) ∷ others) = header true id name value ∷ fields id others

abbrev pub piece : ℕ → Option Bytes → Callback
piece id none = frame true data_frame false id
piece id (some chunk) = data_chunk id chunk

-- From the HEADERS frame on; without a body, it ends the stream.
abbrev pub body_callbacks : ℕ → Option (List (Option Bytes)) → List Callback
body_callbacks id none = frame true headers true id ∷ []
body_callbacks id (some pieces) =
    frame true headers false id ∷ (map (piece id) pieces ++ frame true data_frame true id ∷ [])

abbrev pub behind_path_callbacks :
    ℕ → Option Bytes → Others → Option (List (Option Bytes)) → List Callback
behind_path_callbacks id type others body =
    fields id others.behind_path
    ++ (type_headers id type ++ (fields id others.behind_type ++ body_callbacks id body))

abbrev pub behind_begin :
    ℕ → Method → Bytes → Option Bytes → Others → Option (List (Option Bytes)) → List Callback
behind_begin id method uri type others body =
    header true id (bytes ":method") (method_name method)
    ∷ (fields id others.behind_method
        ++ (header true id (bytes ":path") uri ∷ behind_path_callbacks id type others body))

abbrev pub request :
    ℕ → ℕ → Method → Bytes → Option Bytes → Others → Option (List (Option Bytes)) → List Callback
request id address method uri type others body =
    begin_headers true id address ∷ behind_begin id method uri type others body

-- A field that the program does not read.
abbrev pub IsOther : Bytes × Bytes → Type 0
IsOther field =
    (same field.0 (bytes ":path") ≡ false)
    × (same field.0 (bytes ":method") ≡ false)
    × (same field.0 (bytes "content-type") ≡ false)

abbrev pub AreOther : Others → Type 0
AreOther others =
    All IsOther others.behind_method
    × All IsOther others.behind_path
    × All IsOther others.behind_type

abbrev pub concat : List (Option Bytes) → Bytes
concat [] = []
concat (none ∷ pieces) = concat pieces
concat (some chunk ∷ pieces) = chunk ++ concat pieces

abbrev pub body_bytes : Option (List (Option Bytes)) → Bytes
body_bytes none = []
body_bytes (some pieces) = concat pieces

-- A parser is made for POST only, and reads the boundary from the content type.
abbrev pub parser_for : Method → Option Bytes → Option Parser
parser_for get type = none
parser_for post none = some fresh
parser_for post (some type) = some (extract_boundary type fresh).0

-- What the stream has collected when its last frame arrives.
abbrev pub collected : ℕ → Method → Bytes → Option Bytes → Bytes → StreamData
collected id method uri type body = record {
  stream_id = id;
  method = some method;
  request_path = uri;
  mime_parser = parser_for method type;
  upload_file_buffer = body;
}

-- One stream has this data, and nothing else but the streams has changed.
pub record Holds (id : ℕ) (stream : StreamData) (m m' : Model) : Type 0 where
  pub here : m'.open_streams id ≡ some stream
  pub same_cache : m'.file_cache ≡ m.file_cache
  pub same_effects : m'.effects ≡ m.effects
  pub same_answers : m'.answers ≡ m.answers

put_here :
    (id : ℕ) (stream : Option StreamData) (streams : ℕ → Option StreamData)
    → put id stream streams id ≡ stream
put_here id stream streams = rw (==_refl id) refl

Holds-change :
    (id : ℕ) (stream : StreamData) (m m' : Model) (change : StreamData → StreamData)
    (stream' : StreamData)
    → Holds id stream m m'
    → change stream ≡ stream'
    → Holds id stream' m (change_at id change m')
Holds-change id stream m m' change stream' h e = record {
  here = put_here id _ m'.open_streams ∙ ap (change_option change) h.here ∙ ap some e;
  same_cache = h.same_cache;
  same_effects = h.same_effects;
  same_answers = h.same_answers;
}

begin_Holds :
    (id address : ℕ) (m : Model)
    → Holds id
        (new_stream id)
        m
        (record m { open_streams = put id (some (new_stream id)) m.open_streams })
begin_Holds id address m = record {
  here = put_here id (some (new_stream id)) m.open_streams;
  same_cache = refl;
  same_effects = refl;
  same_answers = refl;
}

module _ (router : Option (Node AppHandler)) (temporary : ℕ → ℕ → Bytes)
    (disk : List Effect → Bytes → Probe) where
  -- Callbacks that collect, in front of any others.
  abbrev pub Collects : ℕ → StreamData → List Callback → Model → Model → Model → Type 0
  Collects id stream cs base m m' =
      Holds id stream base m'
      × ((rest : List Callback)
          → meanings router temporary disk (cs ++ rest) m ≡ meanings router temporary disk rest m')

  pub collect_method :
      (id address : ℕ) (method : Method) (m : Model)
      → (m' : Model) × Collects id
          (collected id method [] none [])
          (begin_headers true id address
            ∷ header true id (bytes ":method") (method_name method)
            ∷ [])
          m
          m
          m'
  unfolding meanings meaning header_change method_header same
  collect_method id address get m = (
    _,
    (
      Holds-change id _ m _ (header_change (bytes ":method") (bytes "GET")) _
          (begin_Holds id address m) refl,
      λ rest. refl,
    ),
  )
  collect_method id address post m = (
    _,
    (
      Holds-change id _ m _ (header_change (bytes ":method") (bytes "POST")) _
          (begin_Holds id address m) refl,
      λ rest. refl,
    ),
  )

  pub collect_path :
      (id : ℕ) (method : Method) (uri : Bytes) (base m : Model)
      → Holds id (collected id method [] none []) base m
      → (m' : Model) × Collects id
          (collected id method uri none [])
          (header true id (bytes ":path") uri ∷ [])
          base
          m
          m'
  unfolding meanings meaning header_change same
  collect_path id method uri base m h =
      (_, (Holds-change id _ base m (header_change (bytes ":path") uri) _ h refl, λ rest. refl))

  other_change :
      (name value : Bytes) (stream : StreamData)
      → IsOther (name, value)
      → header_change name value stream ≡ stream
  unfolding header_change
  other_change name value stream (no_path, no_method, no_type) =
      rw (no_path, no_method, no_type, header_change) refl

  -- Fields that are not read change nothing.
  pub collect_fields :
      (id : ℕ) (others : List (Bytes × Bytes)) (stream : StreamData) (base m : Model)
      → All IsOther others
      → Holds id stream base m
      → (m' : Model) × Collects id stream (fields id others) base m m'
  unfolding meanings meaning
  collect_fields id [] stream base m unread h = (m, (h, λ rest. refl))
  collect_fields id ((name, value) ∷ others) stream base m unread h =
      let (m', (holds, steps)) =
        collect_fields id others stream base (change_at id (header_change name value) m) unread.1 (
          Holds-change id stream base m (header_change name value) stream h
            (other_change name value stream unread.0)) in
      (m', (holds, λ rest. steps rest))

  pub collect_type :
      (id : ℕ) (method : Method) (uri : Bytes) (type : Option Bytes) (base m : Model)
      → Holds id (collected id method uri none []) base m
      → (m' : Model) × Collects id
          (collected id method uri type [])
          (type_headers id type)
          base
          m
          m'
  unfolding meanings meaning header_change content_type_header same
  collect_type id get uri none base m h = (m, (h, λ rest. refl))
  collect_type id post uri none base m h = (m, (h, λ rest. refl))
  collect_type id get uri (some type) base m h = (
    _,
    (Holds-change id _ base m (header_change (bytes "content-type") type) _ h refl, λ rest. refl),
  )
  collect_type id post uri (some type) base m h = (
    _,
    (Holds-change id _ base m (header_change (bytes "content-type") type) _ h refl, λ rest. refl),
  )

  pub collect_pieces :
      (id : ℕ) (method : Method) (uri : Bytes) (type : Option Bytes) (pieces : List (Option Bytes))
      (before : Bytes) (base m : Model)
      → Holds id (collected id method uri type before) base m
      → (m' : Model) × Collects id
          (collected id method uri type (before ++ concat pieces))
          (map (piece id) pieces)
          base
          m
          m'
  unfolding meanings meaning
  collect_pieces id method uri type [] before base m h = (
    m,
    (
      subst (λ b. Holds id (collected id method uri type b) base m) (sym (append-nil before)) h,
      λ rest. refl,
    ),
  )
  collect_pieces id method uri type (none ∷ pieces) before base m h =
      let (m', (holds, steps)) = collect_pieces id method uri type pieces before base m h in
      (m', (holds, λ rest. steps rest))
  collect_pieces id method uri type (some chunk ∷ pieces) before base m h =
      let add : StreamData → StreamData =
        λ stream. record stream { upload_file_buffer = stream.upload_file_buffer ++ chunk } in
      let (m', (holds, steps)) =
        collect_pieces id method uri type pieces (before ++ chunk) base (change_at id add m)
          (Holds-change id _ base m add _ h refl) in
      (
        m',
        (
          subst (λ b. Holds id (collected id method uri type b) base m')
              (append_assoc before chunk (concat pieces)) holds,
          λ rest. steps rest,
        ),
      )
