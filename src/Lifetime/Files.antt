-- ===== src/Lifetime/Files.antt =====
-- The descriptors and the mappings of one thread's files: `map`, the constructor and `unmap` of `MappedFile`
-- and the cache (src/file_cache.cc), `load_file_from_filecache` and the handlers (src/handler.cc), and the
-- read callback that copies from a pointer that a handler gave (src/session.cc).
pub mod Mapped
pub mod Released
use h2_server.Prelude.{
  ℕ, Bytes, same, Bool, true, false, Option, none, some, List, [], ◌∷◌, ◌++◌, if◌then◌else◌,
  get_elem?, ◌≢◌,
}
use h2_server.Lifetime.{Handle, file_fd, mapping, no_memory, Call, opens, uses, frees}

-- `data` of a `MappedFile`: null, MAP_FAILED, or what `mmap` gave.
pub data Pointer : Type 0 where
  null map_failed : Pointer
  address : ℕ → Pointer

-- What `open`, `fstat` and `mmap` give to one call of `map`.
pub record MapCalls : Type 0 where
  pub descriptor : Option ℕ
  pub has_status : Bool
  pub memory : Option ℕ

abbrev pub handle : Pointer → Handle
handle null = no_memory
handle map_failed = no_memory
handle (address a) = mapping a

-- Behind `fstat`.
unfoldable pub map_opened : ℕ → Option ℕ → Pointer × Bool × List Call
map_opened fd none = (
  map_failed,
  false,
  opens (file_fd fd) ∷ uses (file_fd fd) ∷ uses (file_fd fd) ∷ frees (file_fd fd) ∷ [],
)
map_opened fd (some a) = (
  address a,
  true,
  opens (file_fd fd)
      ∷ uses (file_fd fd)
      ∷ uses (file_fd fd)
      ∷ opens (mapping a)
      ∷ frees (file_fd fd)
      ∷ [],
)

unfoldable pub map : MapCalls → Pointer → Pointer × Bool × List Call
unfolding map_opened
map calls pointer = elim (calls.descriptor) [
  | none ↦ (pointer, false, [])
  | some fd ↦
      if calls.has_status
      then map_opened fd calls.memory
      else (pointer, false, opens (file_fd fd) ∷ uses (file_fd fd) ∷ frees (file_fd fd) ∷ [])
]

-- The destructor.
unfoldable pub unmap : Pointer → List Call
unmap null = []
unmap map_failed = frees no_memory ∷ []
unmap (address a) = frees (mapping a) ∷ []

abbrev pub Cache : Type 0
Cache = List (Bytes × Pointer)

unfoldable pub find_file_from_filecache : Cache → Bytes → Option Pointer
find_file_from_filecache [] path = none
find_file_from_filecache ((key, pointer) ∷ cache) path =
    if same key path then some pointer else find_file_from_filecache cache path

-- A change of the file that the cache shares.
unfoldable pub write_through : Cache → Bytes → Pointer → Cache
write_through [] path new = []
write_through ((key, pointer) ∷ cache) path new =
    if same key path then (key, new) ∷ cache else (key, pointer) ∷ write_through cache path new

abbrev pub if_mapped : Pointer → Option Pointer
if_mapped null = none
if_mapped pointer = some pointer

-- Where the cache has no file of that path.
unfoldable pub insert_file_into_filecache : MapCalls → Cache → Bytes → Cache × Pointer × List Call
unfolding map
insert_file_into_filecache calls cache path =
    let (pointer, done, log) = map calls null in ((path, pointer) ∷ cache, pointer, log)

-- `load_file_from_filecache` for what is found.
unfoldable pub load_found :
    MapCalls → Cache → Bytes → Option Pointer → Cache × Option Pointer × List Call
unfolding map write_through insert_file_into_filecache
load_found calls cache path none =
    let (cache', pointer, log) = insert_file_into_filecache calls cache path in
    (cache', if_mapped pointer, log)
load_found calls cache path (some null) =
    let (pointer, done, log) = map calls null in
    (write_through cache path pointer, if done then some pointer else none, log)
load_found calls cache path (some pointer) = (cache, some pointer, [])

unfoldable pub load_file_from_filecache :
    MapCalls → Cache → Bytes → Cache × Option Pointer × List Call
unfolding load_found find_file_from_filecache
load_file_from_filecache calls cache path =
    load_found calls cache path (find_file_from_filecache cache path)

-- The cache, and `file_ctx.data` of each answer with a file, in order.
pub record FileThread : Type 0 where
  pub cache : Cache
  pub given : List Pointer

-- `downloader`, `uploader` behind a completed upload of the file of that name, and a read callback for the
-- answer of that number.
pub data FileEvent : Type 0 where
  downloads uploads : Bytes → MapCalls → FileEvent
  reads : ℕ → FileEvent

-- The end of `downloader`.
abbrev pub give : FileThread → Cache × Option Pointer × List Call → FileThread × List Call
give t (cache, none, log) = (record t { cache = cache }, log)
give t (cache, some pointer, log) = (record { cache = cache; given = t.given ++ pointer ∷ [] }, log)

unfoldable pub handle_event : FileEvent → FileThread → FileThread × List Call
unfolding load_file_from_filecache
handle_event (downloads [] calls) t = (t, [])
handle_event (downloads (c ∷ path) calls) t =
    give t (load_file_from_filecache calls t.cache (c ∷ path))
handle_event (uploads path calls) t =
    let (cache, file, log) = load_file_from_filecache calls t.cache path in
    (record t { cache = cache }, log)
handle_event (reads i) t =
    (t, elim (get_elem? t.given i) [ none ↦ [] | some pointer ↦ uses (handle pointer) ∷ [] ])

-- The end of the thread destroys its cache.
unfoldable pub unmap_all : Cache → List Call
unfolding unmap
unmap_all [] = []
unmap_all ((key, pointer) ∷ cache) = unmap pointer ++ unmap_all cache

unfoldable pub thread_calls : List FileEvent → FileThread → List Call
unfolding handle_event unmap_all
thread_calls [] t = unmap_all t.cache
thread_calls (event ∷ events) t =
    let (t', log) = handle_event event t in log ++ thread_calls events t'

abbrev pub new_thread : FileThread
new_thread = record { cache = []; given = [] }

-- `mmap` does not fail.
abbrev pub CanMap : FileEvent → Type 0
CanMap (downloads path calls) = calls.memory ≢ none
CanMap (uploads path calls) = calls.memory ≢ none
CanMap (reads i) = Unit
