-- ===== src/FileCache.antt =====
-- src/file_cache.cc and `downloader` of src/handler.cc: each thread's map from paths to mapped
-- files. What the kernel makes of a path is a parameter; memory does not run out. A mapping is written
-- here as the bytes that the file has when it is mapped. They are what the mapping shows as long as the
-- file is not written to or cut off while it is mapped: mmap(2) says nothing of a file that is.
pub mod Serving
mod Tests
use h2_server.Prelude.{
  ℕ, ◌==◌, Bytes, same, Bool, true, false, Option, none, some, List, [], ◌∷◌, length, if◌then◌else◌,
}

-- What `open`, `fstat` and `mmap` give: the first or the second fails, `mmap` fails on a file of
-- that size, or the bytes are mapped.
pub data Probe : Type 0 where
  absent no_status : Probe
  unmappable : ℕ → Probe
  readable : Bytes → Probe

-- The pointer: null, MAP_FAILED, or to a mapping, named by the bytes that the file has when it is mapped.
pub data Pointer : Type 0 where
  null map_failed : Pointer
  mapped : Bytes → Pointer

pub record MappedFile : Type 0 where
  pub pointer : Pointer
  pub data_len : ℕ

-- A path up to its first zero byte.
unfoldable pub c_str : Bytes → Bytes
c_str [] = []
c_str (c ∷ s) = if c == 0 then [] else c ∷ c_str s

-- `map` behind the test of its argument.
unfoldable pub map_probe : Probe → MappedFile → MappedFile × Bool
map_probe absent file = (file, false)
map_probe no_status file = (file, false)
map_probe (unmappable size) file = (record { pointer = map_failed; data_len = size }, false)
map_probe (readable content) file =
    (record { pointer = mapped content; data_len = length content }, true)

module _ (disk : Bytes → Probe) where
  unfoldable pub map : Option Bytes → MappedFile → MappedFile × Bool
  unfolding map_probe
  map none file = (file, false)
  map (some path) file = map_probe (disk path) file

  -- The constructor.
  unfoldable pub make : Option Bytes → MappedFile
  unfolding map
  make path = (map path record { pointer = null; data_len = 0 }).0

-- The arguments of `munmap`, if it is called.
unfoldable pub unmap : MappedFile → Option (Pointer × ℕ)
unmap file = elim (file.pointer) [ null ↦ none | _ ↦ some (file.pointer, file.data_len) ]

unfoldable pub is_mapped : MappedFile → Bool
is_mapped file = elim (file.pointer) [ null ↦ false | _ ↦ true ]

abbrev pub Cache : Type 0
Cache = List (Bytes × MappedFile)

unfoldable pub find_file_from_filecache : Cache → Bytes → Option MappedFile
find_file_from_filecache [] path = none
find_file_from_filecache ((key, file) ∷ cache) path =
    if same key path then some file else find_file_from_filecache cache path

-- A change of the file that the cache shares.
unfoldable pub write_through : Cache → Bytes → MappedFile → Cache
write_through [] path file' = []
write_through ((key, file) ∷ cache) path file' =
    if same key path then (key, file') ∷ cache else (key, file) ∷ write_through cache path file'

-- What `downloader` replies: 404, or 200 with `file_ctx` on that pointer and size.
pub data Reply : Type 0 where
  not_found : Reply
  ok_with_file : Pointer → ℕ → Reply

-- The end of `downloader`.
unfoldable pub reply_loaded : Cache × Option MappedFile → Cache × Reply
reply_loaded (cache, none) = (cache, not_found)
reply_loaded (cache, some file) = (cache, ok_with_file file.pointer file.data_len)

-- `emplace`, for what is found under the path.
unfoldable pub emplace : Cache → Bytes → MappedFile → Option MappedFile → Cache × Option MappedFile
emplace cache path file none = ((path, file) ∷ cache, some file)
emplace cache path file (some old) = (cache, none)

-- `nullptr` unless the file is mapped.
unfoldable pub if_mapped : Cache × Option MappedFile → Cache × Option MappedFile
unfolding is_mapped
if_mapped (cache, none) = (cache, none)
if_mapped (cache, some file) = if is_mapped file then (cache, some file) else (cache, none)

module _ (disk : Bytes → Probe) where
  unfoldable pub insert_file_into_filecache : Cache → Bytes → Cache × Option MappedFile
  unfolding make emplace c_str
  insert_file_into_filecache cache path =
      emplace cache path (make disk (some (c_str path))) (find_file_from_filecache cache path)

  -- `load_file_from_filecache` for what is found.
  unfoldable pub load_found : Cache → Bytes → Option MappedFile → Cache × Option MappedFile
  unfolding insert_file_into_filecache if_mapped is_mapped write_through map
  load_found cache path none = if_mapped (insert_file_into_filecache cache path)
  load_found cache path (some file) =
      if is_mapped file
      then (cache, some file)
      else let (file', done) = map disk (some (c_str path)) file in
        (write_through cache path file', if done then some file' else none)

  unfoldable pub load_file_from_filecache : Cache → Bytes → Cache × Option MappedFile
  unfolding load_found find_file_from_filecache
  load_file_from_filecache cache path = load_found cache path (find_file_from_filecache cache path)

  unfoldable pub downloader : Cache → Bytes → Cache × Reply
  unfolding load_file_from_filecache reply_loaded
  downloader cache [] = (cache, not_found)
  downloader cache (c ∷ path) = reply_loaded (load_file_from_filecache cache (c ∷ path))

-- The downloads of one thread, each with what the kernel makes of paths at that time.
unfoldable pub serve : Cache → List (Bytes × (Bytes → Probe)) → List Reply
unfolding downloader
serve cache [] = []
serve cache ((path, disk) ∷ requests) =
    let (cache', reply) = downloader disk cache path in reply ∷ serve cache' requests
