-- ===== src/Handler.antt =====
-- The handlers of src/handler.cc on a request. `downloader` and the file cache are in `FileCache`; here
-- it fills the stream's `file_ctx`, and `uploader` drives the multipart parser.
use h2_server.Prelude.{Bytes, Bool, true, false, Option, none, some, List, [], ◌∷◌, ℕ}
use h2_server.FileCache.{
  Probe, Pointer, mapped, Cache, Reply, not_found, ok_with_file, load_file_from_filecache,
}
use h2_server.FileCache as Files
use h2_server.FileStream.{error_read_callback, read_frames}
use h2_server.Multipart.{Parser, Effect, write}
use h2_server.Main.{AppHandler, downloader, uploader}

-- What is handed to `nghttp2_submit_response2`: `reply_404`, `reply_ok`, or `reply_ok_with_file` with
-- the pointer and the size in `file_ctx`.
pub data Answer : Type 0 where
  error_reply : Answer
  ok : Answer
  ok_file : Pointer → ℕ → Answer

abbrev pub of_reply : Reply → Answer
of_reply not_found = error_reply
of_reply (ok_with_file pointer size) = ok_file pointer size

-- What a handler leaves: the cache, the parser, the effects on files, and its answer.
pub record Handled : Type 0 where
  pub file_cache : Cache
  pub mime_parser : Option Parser
  pub effects : List Effect
  pub answer : Answer

-- `temporary` names the temporary files; `disk` is what the kernel makes of a path behind the effects.
module _ (temporary : ℕ → Bytes) (disk : List Effect → Bytes → Probe) where
  -- `uploader` behind its call of `write`.
  unfoldable pub uploaded : Cache → Parser × List Effect × Bool → Handled
  unfolding load_file_from_filecache
  uploaded cache (p, effects, false) = record {
    file_cache = cache;
    mime_parser = some p;
    effects = effects;
    answer = ok;
  }
  uploaded cache (p, effects, true) =
      let (cache', file) = load_file_from_filecache (disk effects) cache p.current_filename in
      record {
        file_cache = cache';
        mime_parser = some p;
        effects = effects;
        answer = elim file [ none ↦ error_reply | some f ↦ ok ];
      }

  unfoldable pub upload : Cache → Option Parser → Bytes → Handled
  unfolding uploaded write
  upload cache none buffer = record {
    file_cache = cache;
    mime_parser = none;
    effects = [];
    answer = ok;
  }
  upload cache (some p) buffer = uploaded cache (write temporary buffer p)

  unfoldable pub download : Cache → Option Parser → Bytes → Handled
  unfolding Files.downloader
  download cache parser rel_path =
      let (cache', reply) = Files.downloader (disk []) cache rel_path in
      record { file_cache = cache'; mime_parser = parser; effects = []; answer = of_reply reply }

  -- `(*result.handler)(request)`
  unfoldable pub call : AppHandler → Cache → Option Parser → Bytes → Bytes → Handled
  unfolding upload download
  call downloader cache parser buffer rel_path = download cache parser rel_path
  call uploader cache parser buffer rel_path = upload cache parser buffer

-- What nghttp2 reads for an answer, with the room that each frame has, and whether EOF came: the page
-- for 404, which ends with its first frame, nothing for 200 alone, or the file; `none` is a copy from a
-- pointer that maps nothing, or from outside the mapping.
unfoldable pub answer_frames : List ℕ → Answer → Option (Bytes × Bool)
unfolding error_read_callback read_frames
answer_frames [] error_reply = some ([], false)
answer_frames (len ∷ lens) error_reply = some (error_read_callback len)
answer_frames lens ok = some ([], true)
answer_frames lens (ok_file (mapped content) size) =
    read_frames lens record { size = size; offset = 0; content = content }
answer_frames lens (ok_file _ size) = none
