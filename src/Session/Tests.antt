-- ===== src/Session/Tests.antt =====
-- Requests on a new session, with nghttp2's pointers in a function.
use h2_server.Prelude.{
  take, leb, arith, if◌then◌else◌, ℕ, ◌≡◌, refl, Bytes, bytes, same, true, Option, none, some, List,
  [], ◌∷◌, ◌++◌, ◌==◌, if◌then◌else◌,
}
use h2_server.Connection.{established}
use h2_server.FileCache.{readable, find_file_from_filecache, c_str, Probe, absent}
use h2_server.Handler.{answer_frames, Answer}
use h2_server.Main.{routes}
use h2_server.Multipart.{Effect}
use h2_server.Multipart.Upload.{Part}
use h2_server.Router.{get}
use h2_server.Router.Segments.{split_path_segments}
use h2_server.Session.{UserData, new_stream, Session, headers, find_stream}
use h2_server.Session.Run.{
  Callback, begin_headers, header, data_chunk, frame, stream_close, Model, meanings, run,
}
use h2_server.Session.Refine.{Represents, Agree}
use h2_server.Session.Callbacks.{run-Agree}
use h2_server.Session.Collect.{Others, AreOther, request}
use h2_server.Session.Requests.{quiet-Allocates}
use h2_server.FileStream.Delivery.{sum}
use h2_server.Session.Downloads.{run-download}
use h2_server.Session.Unfinished.{destroy_streams}
use h2_server.Session.Unfinished.Interrupted.{run-unfinished}

abbrev Pointers : Type 0
Pointers = ℕ → Option ℕ

pointers : UserData Pointers
pointers = record {
  empty = λ id. none;
  get_user_data = λ id t. t id;
  set_user_data = λ id address t other. if id == other then some address else t other;
  close = λ id t other. if id == other then none else t other;
  empty_law = λ id. refl;
  set_law = λ id address other t. refl;
  close_law = λ id other t. refl;
}

abbrev new_session : Session Pointers
new_session = record {
  streams = [];
  user_data = λ id. none;
  state = established;
  file_cache = [];
  effects = [];
  answers = [];
}

abbrev no_streams : Model
no_streams = record {
  open_streams = λ id. none;
  state = established;
  file_cache = [];
  effects = [];
  answers = [];
}

new_session-Represents : Represents pointers new_session no_streams
unfolding pointers
new_session-Represents = record {
  linked = λ id address h. absurd (cc);
  closed = λ id h. refl;
  same_state = refl;
  same_cache = refl;
  same_effects = refl;
  same_answers = refl;
}

abbrev temporary : ℕ → ℕ → Bytes
temporary id n = bytes "tmp"

abbrev no_files : List Effect → Bytes → Probe
no_files effects path = absent

abbrev boundary : Bytes
boundary = bytes "-----7f3a"

abbrev hello_part : Part
hello_part = record {
  preamble = bytes "--";
  head = bytes "Content-Disposition: form-data; name=\"f\"; ";
  name = bytes "hello.txt";
  tail = bytes "";
  line = bytes "hello";
  more = bytes "-------7f3a--";
}

-- Two streams whose callbacks alternate.
abbrev two_requests : List Callback
two_requests =
    begin_headers true 1 0
    ∷ begin_headers true 3 1
    ∷ header true 3 (bytes ":method") (bytes "GET")
    ∷ frame true headers true 3
    ∷ stream_close 3
    ∷ data_chunk 1 (bytes "x")
    ∷ []

abbrev two_open : Session Pointers
two_open = record new_session {
  streams = (0, new_stream 1) ∷ (1, new_stream 3) ∷ [];
  user_data = pointers.set_user_data 3 1 (pointers.set_user_data 1 0 (λ id. none));
}

run-Agree_example :
    Agree pointers
      (run (some routes) temporary no_files pointers two_requests new_session)
      (meanings (some routes) temporary no_files two_requests no_streams)
unfolding run pointers find_stream
run-Agree_example =
    run-Agree pointers (some routes) temporary no_files two_requests new_session no_streams
      new_session-Represents
      (
        refl,
        (
          refl,
          quiet-Allocates pointers temporary no_files
              (header true 3 (bytes ":method") (bytes "GET")
                ∷ frame true headers true 3
                ∷ stream_close 3
                ∷ data_chunk 1 (bytes "x")
                ∷ [])
              two_open (tt, (tt, (tt, (tt, tt)))),
        ),
      )

-- The fields that a request has besides.
abbrev common : Others
common = record {
  behind_method = (bytes ":scheme", bytes "https") ∷ [];
  behind_path = (bytes ":authority", bytes "localhost") ∷ (bytes "accept", bytes "*/*") ∷ [];
  behind_type = [];
}

common-AreOther : AreOther common
unfolding same
common-AreOther = (((refl, refl, refl), tt), ((refl, refl, refl), ((refl, refl, refl), tt)), tt)

abbrev two_chunks : List (Option Bytes)
two_chunks =
    some (bytes "-------7f3a\r\nContent-Disposition: form-data; name=\"f\"; filename=\"hel")
    ∷ none
    ∷ some (bytes "lo.txt\"\r\n\r\nhello\r\n-------7f3a--")
    ∷ []

abbrev content_type : Bytes
content_type = bytes "multipart/form-data; " ++ (bytes "boundary=" ++ (boundary ++ []))

abbrev one_file : List Effect → Bytes → Probe
one_file effects path = if same path (bytes "a.txt") then readable (bytes "hello") else absent

run-download_example :
    (s' : Session Pointers) × (answer : Answer) × (run
        (some routes)
        temporary
        one_file
        pointers
        (request 1 0 get (bytes "/files/a.txt") none common none)
        new_session
      ≡ some (s', true))
    × (s'.answers ≡ (1, answer) ∷ [])
    × ((lens : List ℕ)
        → answer_frames lens answer ≡ some (take (sum lens) (bytes "hello"), leb 5 (sum lens)))
unfolding find_stream split_path_segments same find_file_from_filecache c_str
run-download_example =
    run-download pointers temporary one_file new_session no_streams 1 0 (bytes "/files/a.txt") none
      common none 97 (bytes ".txt") (bytes "hello") new_session-Represents refl common-AreOther refl
      refl refl (omega arith) (omega arith)

-- An upload whose connection is lost, behind a request that is reset.
abbrev cut_off : List Callback
cut_off =
    begin_headers true 1 0
    ∷ header true 1 (bytes ":method") (bytes "POST")
    ∷ data_chunk 1 (bytes "x")
    ∷ begin_headers true 3 1
    ∷ stream_close 3
    ∷ []

run-unfinished_example :
    (s' : Session Pointers) × (run (some routes) temporary no_files pointers cut_off new_session
      ≡ some (s', true))
    × (s'.effects ++ destroy_streams s'.streams ≡ [])
unfolding run pointers find_stream
run-unfinished_example =
    run-unfinished pointers (some routes) temporary no_files cut_off new_session no_streams
      new_session-Represents (refl, (tt, (tt, (refl, (tt, tt))))) tt
      (tt, (tt, (tt, (tt, (tt, tt)))))
