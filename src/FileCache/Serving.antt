-- ===== src/FileCache/Serving.antt =====
-- What a client is served: the mapping that was made of the path first.
use h2_server.Prelude.{
  ◌∙◌, ap, ap₂, ℕ, ◌≡◌, ◌≢◌, inl, inr, refl, sym, subst, true, false, Option, none, some, List, [],
  ◌∷◌, length, if◌then◌else◌, Bytes, same, eq_of_same, same_refl, Bool-cases,
}
use h2_server.FileCache.{
  Probe, absent, no_status, unmappable, readable, Pointer, null, map_failed, mapped, MappedFile,
  c_str, map, make, is_mapped, Cache, find_file_from_filecache, write_through, Reply, not_found,
  ok_with_file, map_probe, emplace, if_mapped, load_found, reply_loaded, insert_file_into_filecache,
  load_file_from_filecache, downloader, serve,
}

-- The bytes that are known for each path.
abbrev pub Known : Type 0
Known = Bytes → Option Bytes

abbrev pub learn : Probe → Option Bytes → Option Bytes
learn probe (some content) = some content
learn (readable content) none = some content
learn _ none = none

abbrev pub note : Bytes → Option Bytes → Known → Known
note path found known q = if same path q then found else known q

abbrev pub reply_with : Option Bytes → Reply
reply_with none = not_found
reply_with (some content) = ok_with_file (mapped content) (length content)

-- A download as it is meant: what is known of the path, and else what is there now.
abbrev pub answers : Known → List (Bytes × (Bytes → Probe)) → List Reply
answers known [] = []
answers known (([], disk) ∷ requests) = not_found ∷ answers known requests
answers known ((c ∷ path, disk) ∷ requests) =
    let found = learn (disk (c_str (c ∷ path))) (known (c ∷ path)) in
    reply_with found ∷ answers (note (c ∷ path) found known) requests

-- `mmap` never fails on a file that is requested.
abbrev pub Mappable : List (Bytes × (Bytes → Probe)) → Type 0
Mappable [] = Unit
Mappable ((path, disk) ∷ requests) =
    ((size : ℕ) → disk (c_str path) ≢ unmappable size) × Mappable requests

-- The cached file of a path, if any, holds what is known of it.
abbrev Holds : Option MappedFile → Option Bytes → Type 0
Holds none known = known ≡ none
Holds (some file) none = file.pointer ≡ null
Holds (some file) (some content) =
    (file.pointer ≡ mapped content) × (file.data_len ≡ length content)

find-write_through :
    (cache : Cache) (path q : Bytes) (file' : MappedFile) (file : MappedFile)
    → find_file_from_filecache cache path ≡ some file
    → find_file_from_filecache (write_through cache path file') q
      ≡ (if same path q then some file' else find_file_from_filecache cache q)
unfolding find_file_from_filecache write_through
find-write_through [] path q file' file e = absurd cc
find-write_through ((key, old) ∷ cache) path q file' file e = elim (Bool-cases (same key path)) [
  | inl here ↦
      rw (here, write_through, sym (eq_of_same key path here))
        (elim (Bool-cases (same key q)) [ inl e ↦ rw e refl | inr e ↦ rw e refl ])
  | inr there ↦
      let further : find_file_from_filecache cache path ≡ some file =
        subst (λ b. (if b then some old else find_file_from_filecache cache path) ≡ some file) there
          e in
      rw (there, write_through, find-write_through cache path q file' file further)
        (elim (Bool-cases (same key q)) [
          | inl at_key ↦ rw (at_key, other_path key path q there at_key) refl
          | inr elsewhere ↦ rw elsewhere refl
        ])
]
  where
    other_path :
        (key path q : Bytes) → same key path ≡ false → same key q ≡ true → same path q ≡ false
    other_path key path q there at_key = elim (Bool-cases (same path q)) [
      | inr e ↦ e
      | inl e ↦
          let k = eq_of_same key q at_key in
          let p = eq_of_same path q e in
          let here : same key path ≡ true =
            subst (λ x. same key x ≡ true) (k ∙ sym p) (same_refl key) in
          absurd cc
    ]

-- One entry changes.
Represents : Cache → Known → Type 0
Represents cache known = (q : Bytes) → Holds (find_file_from_filecache cache q) (known q)

change :
    (cache cache' : Cache) (known : Known) (path : Bytes) (file : MappedFile) (found : Option Bytes)
    → ((q : Bytes)
        → find_file_from_filecache cache' q
          ≡ (if same path q then some file else find_file_from_filecache cache q))
    → Holds (some file) found
    → Represents cache known
    → Represents cache' (note path found known)
unfolding Represents
change cache cache' known path file found found_in held all q =
    rw (found_in q) (elim (Bool-cases (same path q)) [ inl e ↦ rw e held | inr e ↦ rw e (all q) ])

keep :
    (cache : Cache) (known : Known) (path : Bytes)
    → Represents cache known
    → Represents cache (note path (known path) known)
unfolding Represents
keep cache known path all q = elim (Bool-cases (same path q)) [
  | inl e ↦ rw e (
      subst (λ (x : Bytes). Holds (find_file_from_filecache cache q) (known x))
        (sym (eq_of_same path q e)) (all q))
  | inr e ↦ rw e (all q)
]

-- What a download must leave and reply.
Answered : Option Bytes → Known → Bytes → Cache × Reply → Type 0
Answered found known path r = (r.1 ≡ reply_with found) × Represents r.0 (note path found known)

module _ (disk : Bytes → Probe) (cache : Cache) (known : Known) (path : Bytes)
    (all : Represents cache known) where
  -- The path is new to the cache.
  answer_missing :
      (probe : Probe)
      → ((size : ℕ) → probe ≢ unmappable size)
      → known path ≡ none
      → Answered (learn probe none) known path (
          reply_loaded (
            if_mapped (
              emplace cache path (map_probe probe record { pointer = null; data_len = 0 }).0 none)))
  unfolding Answered reply_loaded if_mapped is_mapped emplace map_probe find_file_from_filecache
  answer_missing absent fine unknown = (refl, change cache _ known path _ none (λ q. refl) refl all)
  answer_missing no_status fine unknown =
      (refl, change cache _ known path _ none (λ q. refl) refl all)
  answer_missing (unmappable size) fine unknown = absurd (fine size refl)
  answer_missing (readable content) fine unknown =
      (refl, change cache _ known path _ (some content) (λ q. refl) (refl, refl) all)

  -- The path is in the cache, and is not mapped.
  answer_unmapped :
      (probe : Probe) (data_len : ℕ)
      → ((size : ℕ) → probe ≢ unmappable size)
      → find_file_from_filecache cache path ≡ some record { pointer = null; data_len = data_len }
      → Answered (learn probe none) known path (
          reply_loaded (
            let (file', done) = map_probe probe record { pointer = null; data_len = data_len } in
            (write_through cache path file', if done then some file' else none)))
  unfolding Answered reply_loaded map_probe
  answer_unmapped absent n fine here = (
    refl,
    change cache _ known path _ none (λ q. find-write_through cache path q _ _ here) refl all,
  )
  answer_unmapped no_status n fine here = (
    refl,
    change cache _ known path _ none (λ q. find-write_through cache path q _ _ here) refl all,
  )
  answer_unmapped (unmappable size) n fine here = absurd (fine size refl)
  answer_unmapped (readable content) n fine here = (
    refl,
    change cache _ known path _ (some content) (λ q. find-write_through cache path q _ _ here)
        (refl, refl) all,
  )

  answer_cached :
      (p : Pointer) (n : ℕ) (k : Option Bytes)
      → ((size : ℕ) → disk (c_str path) ≢ unmappable size)
      → find_file_from_filecache cache path ≡ some record { pointer = p; data_len = n }
      → known path ≡ k
      → Holds (some record { pointer = p; data_len = n }) k
      → Answered
          (learn (disk (c_str path)) k)
          known
          path
          (reply_loaded (load_found disk cache path (some record { pointer = p; data_len = n })))
  unfolding load_found map is_mapped reply_loaded Answered
  answer_cached null n none fine here k held = answer_unmapped (disk (c_str path)) n fine here
  answer_cached (mapped content) n (some content') fine here k held = (
    ap₂ ok_with_file held.0 held.1,
    subst (λ f. Represents cache (note path f known)) k (keep cache known path all),
  )
  answer_cached null n (some content') fine here k held = absurd cc
  answer_cached map_failed n none fine here k held = absurd cc
  answer_cached map_failed n (some content') fine here k held = absurd cc
  answer_cached (mapped content) n none fine here k held = absurd cc

  answer_found :
      (o : Option MappedFile)
      → ((size : ℕ) → disk (c_str path) ≢ unmappable size)
      → find_file_from_filecache cache path ≡ o
      → Answered
          (learn (disk (c_str path)) (known path))
          known
          path
          (reply_loaded (load_found disk cache path o))
  unfolding load_found insert_file_into_filecache make map Represents
  answer_found none fine here =
      let unknown : known path ≡ none = subst (λ o. Holds o (known path)) here (all path) in
      rw (here, unknown) (answer_missing (disk (c_str path)) fine unknown)
  answer_found (some file) fine here =
      answer_cached file.pointer file.data_len (known path) fine here refl
        (subst (λ o. Holds o (known path)) here (all path))

serve-Represents :
    (requests : List (Bytes × (Bytes → Probe))) (cache : Cache) (known : Known)
    → Represents cache known
    → Mappable requests
    → serve cache requests ≡ answers known requests
unfolding serve downloader load_file_from_filecache Answered
serve-Represents [] cache known all fine = refl
serve-Represents (([], disk) ∷ requests) cache known all fine =
    ap (◌∷◌ not_found) (serve-Represents requests cache known all fine.1)
serve-Represents ((c ∷ path, disk) ∷ requests) cache known all fine =
    let (replied, all') =
      answer_found disk cache known (c ∷ path) all (find_file_from_filecache cache (c ∷ path))
        fine.0 refl in
    ap₂ (λ r rs. r ∷ rs) replied (serve-Represents requests _ _ all' fine.1)

-- From an empty cache, and while `mmap` fails on no requested file, the replies to any sequence of
-- downloads are these: an empty path is not found; any other path is not found until the first request
-- for it at which the file can be opened, and is served from the mapping that was made at that request
-- from then on, whatever the path names or whether it can be opened later. The bytes in the replies are
-- those that the file had when it was mapped, and so what is sent if no file is changed while it is
-- mapped.
pub serve-eq-answers :
    (requests : List (Bytes × (Bytes → Probe)))
    → Mappable requests
    → serve [] requests ≡ answers (λ path. none) requests
unfolding Represents find_file_from_filecache
serve-eq-answers requests fine = serve-Represents requests [] (λ path. none) (λ q. refl) fine
