-- ===== src/Multipart.antt =====
-- src/multipart_parser.cc: the parser of uploads. A position is a number, and `none` is `npos`. What
-- the parser does to the file system is the list of effects that a call returns; `count` is an `int`
-- that does not reach its bound.
pub mod Disk
pub mod Search
pub mod Boundary
pub mod Upload
pub mod Moves
pub mod Save
mod Tests
use h2_server.Prelude.{
  ℕ, zero, suc, ◌+◌, ◌-◌, Bytes, bytes, same, Bool, true, false, not, ◌&&◌, Option, none, some,
  List, [], ◌∷◌, ◌++◌, length, take, drop, ◌==◌, if◌then◌else◌,
}

unfoldable pub starts_with : Bytes → Bytes → Bool
starts_with [] text = true
starts_with (c ∷ needle) [] = false
starts_with (c ∷ needle) (d ∷ text) = c == d && starts_with needle text

-- The first position of the needle.
unfoldable pub find : Bytes → Bytes → Option ℕ
unfolding starts_with
find needle [] = if starts_with needle [] then some 0 else none
find needle (c ∷ text) =
    if starts_with needle (c ∷ text)
    then some 0
    else elim (find needle text) [ none ↦ none | some n ↦ some (suc n) ]

-- `text.find(needle, pos)` with a needle that is not empty.
unfoldable pub find_from : Bytes → Bytes → Option ℕ → Option ℕ
unfolding find
find_from needle text none = none
find_from needle text (some pos) = elim (find needle (drop pos text)) [
  | none ↦ none
  | some n ↦ some (pos + n)
]

abbrev pub substr : Bytes → ℕ → ℕ → Bytes
substr text start len = take len (drop start text)

abbrev pub is_empty : Bytes → Bool
is_empty [] = true
is_empty (c ∷ s) = false

abbrev pub crlf : Bytes
crlf = bytes "\r\n"

pub record Parser : Type 0 where
  pub current_filename : Bytes
  pub current_tmp_filename : Bytes
  pub count : ℕ
  pub boundary : Bytes
  pub file_map : List (Bytes × Bytes)

-- A file is appended to, or moved.
pub data Effect : Type 0 where
  append_file rename : Bytes → Bytes → Effect

abbrev pub fresh : Parser
fresh = record {
  current_filename = [];
  current_tmp_filename = [];
  count = 0;
  boundary = [];
  file_map = [];
}

unfoldable pub find_key : Bytes → List (Bytes × Bytes) → Option Bytes
find_key name [] = none
find_key name ((key, tmp) ∷ files) = if same key name then some tmp else find_key name files

unfoldable pub erase : Bytes → List (Bytes × Bytes) → List (Bytes × Bytes)
erase name [] = []
erase name ((key, tmp) ∷ files) = if same key name then files else (key, tmp) ∷ erase name files

-- The destructor, in the order in which the map is gone through.
unfoldable pub rename_temporary_filenames : List (Bytes × Bytes) → List Effect
rename_temporary_filenames [] = []
rename_temporary_filenames ((key, tmp) ∷ files) = rename tmp key ∷ rename_temporary_filenames files

unfoldable pub extract_boundary : Bytes → Parser → Parser × Bool
unfolding find_from
extract_boundary content_type p =
    if is_empty p.boundary && not (is_empty content_type)
    then elim (find_from (bytes "boundary=") content_type (some 0)) [
      | none ↦ (p, false)
      | some found ↦
          let start = found + 9 in
          elim (find_from crlf content_type (some start)) [
            | some end ↦ (record p { boundary = substr content_type start (end - start) }, true)
            | none ↦ elim (find_from (bytes ";") content_type (some start)) [
              | some end ↦ (record p { boundary = substr content_type start (end - start) }, true)
              | none ↦ (
                record p { boundary = substr content_type start (length content_type - start) },
                true,
              )
            ]
          ]
    ]
    else (p, false)

-- The range found, or `npos`, and `pos` as the call leaves it.
module _ (buffer : Bytes) where
  unfoldable pub find_filename : Bytes → Option (ℕ × ℕ) × Option ℕ
  unfolding find_from
  find_filename boundary =
      let pos = find_from (boundary ++ crlf) buffer (some 0) in
      elim (find_from (bytes "filename=\"") buffer pos) [
        | none ↦ (none, pos)
        | some found ↦
            let start = found + 10 in
            elim (find_from (bytes "\"") buffer (some start)) [
              | none ↦ (none, pos)
              | some end ↦ (some (start, end - start), some end)
            ]
      ]

  unfoldable pub find_file_content : Option ℕ → Option (ℕ × ℕ) × Option ℕ
  unfolding find_from
  find_file_content pos = elim (find_from (crlf ++ crlf) buffer pos) [
    | none ↦ (none, pos)
    | some found ↦
        let start = found + 4 in
        elim (find_from crlf buffer (some start)) [
          | none ↦ (none, pos)
          | some end ↦ (some (start, end - start), some end)
        ]
  ]

  unfoldable pub find_end_boundary : Bytes → Option ℕ → Option (ℕ × ℕ)
  unfolding find_from
  find_end_boundary boundary pos = elim (find_from (boundary ++ bytes "--") buffer pos) [
    | none ↦ none
    | some start ↦ some (start, length buffer - start)
  ]

-- `generate_temporary_filename` joins the parser's address, the thread and the number; the name for
-- each number is a parameter. A file that does not open is left out.
module _ (temporary_filename : ℕ → Bytes) (buffer : Bytes) where
  -- The first step of `write`: a new file name is entered in the map.
  unfoldable pub enter_file : Option (ℕ × ℕ) → Parser → Parser
  unfolding find_key
  enter_file none p = p
  enter_file (some (start, len)) p =
      let filename = substr buffer start len in
      elim (find_key filename p.file_map) [
        | some tmp ↦ p
        | none ↦ record p {
          count = p.count + 1;
          file_map = (filename, temporary_filename p.count) ∷ p.file_map;
          current_filename = filename;
          current_tmp_filename = temporary_filename p.count;
        }
      ]

  -- The second step: the content goes to the temporary file.
  unfoldable pub save_content : Option (ℕ × ℕ) → Parser → List Effect
  save_content none p = []
  save_content (some (start, len)) p =
      if is_empty p.current_tmp_filename
      then []
      else append_file p.current_tmp_filename (substr buffer start len) ∷ []

  -- The third step: at the end boundary the temporary file takes its name.
  unfoldable pub finish : Option (ℕ × ℕ) → Parser → List Effect → Parser × List Effect × Bool
  unfolding erase
  finish none p effects = (p, effects, false)
  finish (some range) p effects = (
    record p { file_map = erase p.current_filename p.file_map },
    effects ++ rename p.current_tmp_filename p.current_filename ∷ [],
    true,
  )

  unfoldable pub write : Parser → Parser × List Effect × Bool
  unfolding find_filename find_file_content find_end_boundary enter_file save_content finish
  write p =
      if is_empty p.boundary
      then (p, [], false)
      else let (name, pos) = find_filename buffer p.boundary in
        let p' = enter_file name p in
        let (content, pos') = find_file_content buffer pos in
        finish (find_end_boundary buffer p.boundary pos') p' (save_content content p')
