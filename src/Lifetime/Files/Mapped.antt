-- ===== src/Lifetime/Files/Mapped.antt =====
-- What a call on the cache leaves alive.
use mathlib.Core.Option.{some_inj}
use h2_server.Prelude.{
  subst, ℕ, ◌<◌, ◌≤◌, ◌≡◌, ◌≢◌, refl, sym, ap, ◌∙◌, Bool, true, false, Option, none, some, List, [],
  ◌∷◌, if◌then◌else◌, same, Bytes, arith, ==_refl,
}
use h2_server.Lifetime.{Handle, mapping, no_memory, Call, alive}
use h2_server.Lifetime.Copies.{copies, SameCopies, copies_head, copies_cons, free_all}
use h2_server.Lifetime.Files.{
  Pointer, null, map_failed, address, handle, MapCalls, map_opened, map, unmap, Cache,
  find_file_from_filecache, write_through, if_mapped, load_found, insert_file_into_filecache,
  unmap_all,
}

abbrev pub held : Pointer → List Handle → List Handle
held null hs = hs
held pointer hs = handle pointer ∷ hs

abbrev pub mappings : Cache → List Handle
mappings [] = []
mappings ((key, pointer) ∷ cache) = held pointer (mappings cache)

pub unmap_all-mappings : (cache : Cache) → unmap_all cache ≡ free_all (mappings cache)
unfolding unmap_all unmap
unmap_all-mappings [] = refl
unmap_all-mappings ((key, null) ∷ cache) = unmap_all-mappings cache
unmap_all-mappings ((key, map_failed) ∷ cache) = rw (unmap_all-mappings cache) refl
unmap_all-mappings ((key, address a) ∷ cache) = rw (unmap_all-mappings cache) refl

held_same :
    (p : Pointer) (xs ys : List Handle) → SameCopies xs ys → SameCopies (held p xs) (held p ys)
held_same null xs ys e = e
held_same map_failed xs ys e = λ k. copies_cons k no_memory xs ys (e k)
held_same (address a) xs ys e = λ k. copies_cons k (mapping a) xs ys (e k)

held_more : (p : Pointer) (hs : List Handle) (k : Handle) → copies k hs ≤ copies k (held p hs)
unfolding copies
held_more null hs k = omega arith
held_more map_failed hs k = ground arith
held_more (address a) hs k = ground arith

-- The thread holds a mapping under the pointer.
abbrev pub Held : Cache → Pointer → Type 0
Held cache pointer = 0 < copies (handle pointer) (mappings cache)

abbrev pub HeldFile : Cache → Option Pointer → Type 0
HeldFile cache none = Unit
HeldFile cache (some pointer) = Held cache pointer

-- A call of `map` on a file that is not mapped opens what the file then holds, and nothing else is left.
abbrev Maps : List Handle → Pointer × Bool × List Call → Type 0
Maps live (pointer, done, log) =
    (alive log live ≡ some (held pointer live))
    × ((if done then some pointer else none) ≡ if_mapped pointer)

map-Maps :
    (calls : MapCalls) (live : List Handle) → calls.memory ≢ none → Maps live (map calls null)
unfolding map map_opened
map-Maps calls live given = by_results calls.descriptor calls.has_status calls.memory given
  where
    by_results :
        (descriptor : Option ℕ) (status : Bool) (memory : Option ℕ)
        → memory ≢ none
        → Maps live
            (map (record { descriptor = descriptor; has_status = status; memory = memory }) null)
    by_results none status memory given = (refl, refl)
    by_results (some fd) false memory given = (rw (==_refl fd) refl, refl)
    by_results (some fd) true none given = absurd (given refl)
    by_results (some fd) true (some a) given = (rw (==_refl fd) refl, refl)

mapped-HeldFile :
    (cache : Cache) (p : Pointer) (hs : List Handle)
    → SameCopies (held p hs) (mappings cache)
    → HeldFile cache (if_mapped p)
mapped-HeldFile cache null hs e = tt
mapped-HeldFile cache map_failed hs e =
    rw (sym (e no_memory), copies_head no_memory hs) (omega arith)
mapped-HeldFile cache (address a) hs e =
    rw (sym (e (mapping a)), copies_head (mapping a) hs) (omega arith)

-- The second cache holds no less.
abbrev pub Grows : Cache → Cache → Type 0
Grows cache cache' = (h : Handle) → copies h (mappings cache) ≤ copies h (mappings cache')

pub HeldFile-Grows :
    (cache cache' : Cache) (file : Option Pointer)
    → Grows cache cache'
    → HeldFile cache file
    → HeldFile cache' file
HeldFile-Grows cache cache' none more h = tt
HeldFile-Grows cache cache' (some p) more h = omega (arith, more (handle p))

-- A file of the cache that is mapped.
found-HeldFile :
    (cache : Cache) (path : Bytes) (p : Pointer)
    → find_file_from_filecache cache path ≡ some p
    → HeldFile cache (if_mapped p)
unfolding find_file_from_filecache
found-HeldFile [] path p e = absurd cc
found-HeldFile ((key, q) ∷ cache) path p e = by_test (same key path) e (found-HeldFile cache path p)
  where
    by_test :
        (b : Bool)
        → (if b then some q else find_file_from_filecache cache path) ≡ some p
        → (find_file_from_filecache cache path ≡ some p → HeldFile cache (if_mapped p))
        → HeldFile ((key, q) ∷ cache) (if_mapped p)
    by_test true e' behind =
        subst (λ x. HeldFile ((key, x) ∷ cache) (if_mapped p)) (sym (some_inj.0 e'))
          (mapped-HeldFile ((key, p) ∷ cache) p (mappings cache) (λ h. refl))
    by_test false e' behind =
        HeldFile-Grows cache ((key, q) ∷ cache) (if_mapped p) (held_more q (mappings cache))
          (behind e')

held_swap :
    (p q : Pointer) (hs : List Handle) → SameCopies (held p (held q hs)) (held q (held p hs))
unfolding copies
held_swap null q hs k = refl
held_swap p null hs k = ground arith
held_swap p q hs k = ground arith

write_through-held :
    (cache : Cache) (path : Bytes) (p : Pointer)
    → find_file_from_filecache cache path ≡ some null
    → SameCopies (held p (mappings cache)) (mappings (write_through cache path p))
unfolding find_file_from_filecache write_through
write_through-held [] path p e = absurd cc
write_through-held ((key, q) ∷ cache) path p e =
    by_test (same key path) e (write_through-held cache path p)
  where
    by_test :
        (b : Bool)
        → (if b then some q else find_file_from_filecache cache path) ≡ some null
        → (find_file_from_filecache cache path ≡ some null
            → SameCopies (held p (mappings cache)) (mappings (write_through cache path p)))
        → SameCopies
            (held p (mappings ((key, q) ∷ cache)))
            (mappings (if b then (key, p) ∷ cache else (key, q) ∷ write_through cache path p))
    by_test true e' behind k = ap (λ x. copies k (held p (held x (mappings cache)))) (some_inj.0 e')
    by_test false e' behind k = held_swap p q (mappings cache) k ∙ held_same q _ _ (behind e') k

-- What a call on the cache leaves, where `live` is alive before it.
abbrev pub IsLoaded : List Handle → Cache → Cache × Option Pointer × List Call → Type 0
IsLoaded live cache (cache', file, log) =
    (live' : List Handle) × (alive log live ≡ some live')
    × SameCopies live' (mappings cache')
    × Grows cache cache'
    × HeldFile cache' file

pub load_found-IsLoaded :
    (calls : MapCalls) (cache : Cache) (path : Bytes) (live : List Handle) (found : Option Pointer)
    → calls.memory ≢ none
    → SameCopies live (mappings cache)
    → find_file_from_filecache cache path ≡ found
    → IsLoaded live cache (load_found calls cache path found)
unfolding load_found insert_file_into_filecache
load_found-IsLoaded calls cache path live none given same_copies e =
    let (pointer, done, log) = map calls null in
    let (left, kept) = map-Maps calls live given in
    let all_held = held_same pointer live (mappings cache) same_copies in
    (
      held pointer live,
      left,
      all_held,
      held_more pointer (mappings cache),
      mapped-HeldFile ((path, pointer) ∷ cache) pointer (mappings cache) (λ h. refl),
    )
load_found-IsLoaded calls cache path live (some null) given same_copies e =
    let pointer = (map calls null).0 in
    let (left, kept) = map-Maps calls live given in
    let written = write_through-held cache path pointer e in
    (
      held pointer live,
      left,
      λ h. held_same pointer live (mappings cache) same_copies h ∙ written h,
      λ h. omega (arith, held_more pointer (mappings cache) h, written h),
      rw kept (mapped-HeldFile (write_through cache path pointer) pointer (mappings cache) written),
    )
load_found-IsLoaded calls cache path live (some map_failed) given same_copies e =
    (live, refl, same_copies, λ h. omega arith, found-HeldFile cache path map_failed e)
load_found-IsLoaded calls cache path live (some (address a)) given same_copies e =
    (live, refl, same_copies, λ h. omega arith, found-HeldFile cache path (address a) e)
