-- ===== src/Lifetime/Files/Released.antt =====
-- What the files of a thread leave alive.
use h2_server.Prelude.{
  All-append, ℕ, ◌≡◌, refl, ap, ◌∙◌, Option, none, some, List, [], ◌∷◌, get_elem?, All, zero, suc,
}
use h2_server.Lifetime.{Handle, Call, uses, alive, alive-append, and_then}
use h2_server.Lifetime.Copies.{SameCopies, uses-copies, free_all-copies}
use h2_server.Lifetime.Files.{
  Pointer, handle, Cache, load_file_from_filecache, FileThread, FileEvent, downloads, uploads,
  reads, give, handle_event, thread_calls, new_thread, CanMap,
}
use h2_server.Lifetime.Files.Mapped.{
  mappings, unmap_all-mappings, Held, HeldFile, Grows, HeldFile-Grows, IsLoaded,
  load_found-IsLoaded,
}

All-HeldFile :
    (cache cache' : Cache) (given : List Pointer)
    → Grows cache cache'
    → All (Held cache) given
    → All (Held cache') given
All-HeldFile cache cache' [] more h = tt
All-HeldFile cache cache' (p ∷ given) more h =
    (HeldFile-Grows cache cache' (some p) more h.0, All-HeldFile cache cache' given more h.1)

abbrev IsAlive : FileThread → List Handle → Type 0
IsAlive t live = SameCopies live (mappings t.cache) × All (Held t.cache) t.given

abbrev IsHandled : List Handle → FileThread × List Call → Type 0
IsHandled live (t, log) = (live' : List Handle) × (alive log live ≡ some live') × IsAlive t live'

give-IsHandled :
    (t : FileThread) (live : List Handle) (cache : Cache) (file : Option Pointer) (log : List Call)
    → All (Held t.cache) t.given
    → IsLoaded live t.cache (cache, file, log)
    → IsHandled live (give t (cache, file, log))
give-IsHandled t live cache none log held_all (live', left, same_copies, more, held_file) =
    (live', left, (same_copies, All-HeldFile t.cache cache t.given more held_all))
give-IsHandled t live cache (some p) log held_all (live', left, same_copies, more, held_file) = (
  live',
  left,
  (
    same_copies,
    All-append (Held cache) t.given (p ∷ []) (All-HeldFile t.cache cache t.given more held_all)
        (held_file, tt),
  ),
)

All-get_elem? :
    (cache : Cache) (given : List Pointer) (i : ℕ)
    → All (Held cache) given
    → HeldFile cache (get_elem? given i)
All-get_elem? cache [] i h = tt
All-get_elem? cache (p ∷ given) zero h = h.0
All-get_elem? cache (p ∷ given) (suc i) h = All-get_elem? cache given i h.1

handle_event-IsHandled :
    (event : FileEvent) (t : FileThread) (live : List Handle)
    → CanMap event
    → IsAlive t live
    → IsHandled live (handle_event event t)
unfolding handle_event load_file_from_filecache
handle_event-IsHandled (downloads [] calls) t live given h = (live, refl, h)
handle_event-IsHandled (downloads (c ∷ path) calls) t live given h =
    give-IsHandled t live _ _ _ h.1
      (load_found-IsLoaded calls t.cache (c ∷ path) live _ given h.0 refl)
handle_event-IsHandled (uploads path calls) t live given h =
    let (live', left, same_copies, more, held_file) =
      load_found-IsLoaded calls t.cache path live _ given h.0 refl in
    (
      live',
      left,
      (
        same_copies,
        All-HeldFile t.cache (load_file_from_filecache calls t.cache path).0 t.given more h.1,
      ),
    )
handle_event-IsHandled (reads i) t live given h =
    by_file (get_elem? t.given i) (All-get_elem? t.cache t.given i h.1)
  where
    by_file :
        (file : Option Pointer)
        → HeldFile t.cache file
        → IsHandled live (t, elim file [ none ↦ [] | some pointer ↦ uses (handle pointer) ∷ [] ])
    by_file none held_file = (live, refl, h)
    by_file (some p) held_file =
        (live, uses-copies (handle p) live (rw (h.0 (handle p)) held_file), h)

alive-thread_calls :
    (events : List FileEvent) (t : FileThread) (live : List Handle)
    → All CanMap events
    → IsAlive t live
    → alive (thread_calls events t) live ≡ some []
unfolding thread_calls
alive-thread_calls [] t live given h =
    rw (unmap_all-mappings t.cache) (free_all-copies (mappings t.cache) live h.0)
alive-thread_calls (event ∷ events) t live given h =
    let (t', log) = handle_event event t in
    let (live', left, after) = handle_event-IsHandled event t live given.0 h in
    alive-append log (thread_calls events t') live
    ∙ ap (λ o. and_then o (alive (thread_calls events t'))) left
    ∙ alive-thread_calls events t' live' given.1 after

-- Whatever a thread downloads and loads behind uploads, whatever `open` and `fstat` give, and whichever
-- answer's file the read callbacks copy from, while `mmap` does not fail: each file that is opened is
-- closed, no file is closed twice or used when it is closed, no callback reads where nothing is mapped
-- any more, and at the end of the thread each mapping is unmapped once.
pub thread_calls-alive :
    (events : List FileEvent)
    → All CanMap events
    → alive (thread_calls events new_thread) [] ≡ some []
thread_calls-alive events given = alive-thread_calls events new_thread [] given ((λ h. refl), tt)
