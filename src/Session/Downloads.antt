-- ===== src/Session/Downloads.antt =====
-- A download, from its first header to the bytes of the body.
use h2_server.Prelude.{
  ℕ, ◌<◌, ◌^◌, ◌≡◌, ap, ◌∙◌, Bytes, bytes, same, true, Option, none, some, List, [], ◌∷◌, ◌++◌,
  length, take, leb,
}
use h2_server.FileCache.{
  Probe, readable, null, mapped, MappedFile, c_str, map_probe, map, make, Cache,
  find_file_from_filecache, Reply, ok_with_file, reply_loaded, emplace, if_mapped, is_mapped,
  insert_file_into_filecache, load_found, load_file_from_filecache,
}
use h2_server.FileCache as Files
use h2_server.FileStream.Delivery.{sum, read_frames-take}
use h2_server.Handler.{Answer, ok_file, of_reply, download, call, answer_frames}
use h2_server.Main.{AppHandler, routes, served}
use h2_server.Multipart.{Effect}
use h2_server.Router.{get}
use h2_server.Router.Segments.{split_path_segments}
use h2_server.Session.{UserData, Session, find_stream}
use h2_server.Session.Run.{Model, run}
use h2_server.Session.Refine.{Represents}
use h2_server.Session.Collect.{Others, AreOther, request, body_bytes}
use h2_server.Session.Outcome.{handled_by, outcome}
use h2_server.Session.Requests.{run-request}

module _ (disk : Bytes → Probe) (cache : Cache) where
  load-new :
      (path content : Bytes)
      → find_file_from_filecache cache path ≡ none
      → disk (c_str path) ≡ readable content
      → (load_file_from_filecache disk cache path).1
        ≡ some (record { pointer = mapped content; data_len = length content })
  unfolding load_file_from_filecache load_found insert_file_into_filecache make map map_probe
      emplace if_mapped is_mapped
  load-new path content new there =
      ap (λ o. (load_found disk cache path o).1) new
      ∙ ap (λ o. (if_mapped (emplace cache path (make disk (some (c_str path))) o)).1) new
      ∙ ap
          (λ (probe : Probe).
            (if_mapped (
              emplace cache path (map_probe probe (record { pointer = null; data_len = 0 })).0
                none)).1)
          there

  reply-loaded :
      (r : Cache × Option MappedFile) (content : Bytes)
      → r.1 ≡ some (record { pointer = mapped content; data_len = length content })
      → (reply_loaded r).1 ≡ ok_with_file (mapped content) (length content)
  unfolding reply_loaded
  reply-loaded (c, none) content e = absurd cc
  reply-loaded (c, some file) content e =
      let this : file ≡ record { pointer = mapped content; data_len = length content } = cc in
      ap (λ (f : MappedFile). ok_with_file f.pointer f.data_len) this

module _ (temporary : ℕ → Bytes) (disk : List Effect → Bytes → Probe) where
  outcome-download :
      (uri : Bytes) (type : Option Bytes) (body : Bytes) (cache : Cache) (c : ℕ)
      (path content : Bytes)
      → split_path_segments uri ≡ bytes "files" ∷ (c ∷ path) ∷ []
      → find_file_from_filecache cache (c ∷ path) ≡ none
      → disk [] (c_str (c ∷ path)) ≡ readable content
      → (outcome temporary disk get uri type body cache).answer
        ≡ ok_file (mapped content) (length content)
  unfolding call download Files.downloader same
  outcome-download uri type body cache c path content segments new there =
      ap
        (λ (found : Option AppHandler × Bytes).
          (handled_by temporary disk none body cache found).answer)
        (ap (served get) segments)
      ∙ ap of_reply (
          reply-loaded (disk []) cache (load_file_from_filecache (disk []) cache (c ∷ path)) content
            (load-new (disk []) cache (c ∷ path) content new there))

module _ {T : Type 0} (nghttp2 : UserData T) (temporary : ℕ → ℕ → Bytes)
    (disk : List Effect → Bytes → Probe) (s : Session T) (m : Model) (id address : ℕ) (uri : Bytes)
    (type : Option Bytes) (others : Others) (parts : Option (List (Option Bytes))) (c : ℕ)
    (path content : Bytes) where
  -- The callbacks of a request, GET for `/files/` and a name, with any fields that the program
  -- does not read and any body, do not fail on a session that a map of streams represents, with a
  -- stream allocated where none lives. Let the cache have no entry for the name, and let the
  -- kernel map the file of that name, up to its first zero byte, which is neither empty nor of 2
  -- GiB or more. Let the file not be changed while it is mapped. Then one answer is submitted,
  -- for the request's stream; and whatever room nghttp2's frames have, they get the file's bytes
  -- in order, as many as they have room for, with EOF exactly if they have room for the whole
  -- file.
  pub run-download :
      Represents nghttp2 s m
      → find_stream address s.streams ≡ none
      → AreOther others
      → split_path_segments uri ≡ bytes "files" ∷ (c ∷ path) ∷ []
      → find_file_from_filecache s.file_cache (c ∷ path) ≡ none
      → disk [] (c_str (c ∷ path)) ≡ readable content
      → 0 < length content
      → length content < 2 ^ 31
      → (s' : Session T) × (answer : Answer) × (run
            (some routes)
            temporary
            disk
            nghttp2
            (request id address get uri type others parts)
            s
          ≡ some (s', true))
        × (s'.answers ≡ s.answers ++ (id, answer) ∷ [])
        × ((lens : List ℕ)
            → answer_frames lens answer
              ≡ some (take (sum lens) content, leb (length content) (sum lens)))
  unfolding answer_frames
  run-download r free unread segments new there some_bytes small =
      let (s', ran, answers, effects, cache) =
        run-request nghttp2 temporary disk s m id address get uri type others parts unread r free in
      let handled = outcome (temporary id) disk get uri type (body_bytes parts) s.file_cache in
      let file =
        outcome-download (temporary id) disk uri type (body_bytes parts) s.file_cache c path content
          segments new there in
      (s', handled.answer, ran, answers, λ lens. ap (answer_frames lens) file ∙ file_frames lens)
    where
      file_frames :
          (lens : List ℕ)
          → answer_frames lens (ok_file (mapped content) (length content))
            ≡ some (take (sum lens) content, leb (length content) (sum lens))
      file_frames [] = read_frames-take [] content some_bytes small
      file_frames (len ∷ lens) = read_frames-take (len ∷ lens) content some_bytes small
