-- ===== src/Multipart/Save.antt =====
-- What `write` leaves of an upload.
use h2_server.Prelude.{
  ℕ, ◌+◌, ◌-◌, ◌≡◌, refl, sym, ap, ◌∙◌, subst, Bytes, Bool, true, false, none, some, List, [], ◌∷◌,
  ◌++◌, length, if◌then◌else◌, arith, same, same_refl,
}
use h2_server.Multipart.{
  is_empty, substr, Parser, Effect, append_file, rename, find_key, erase, enter_file, save_content,
  finish, write,
}
use h2_server.Multipart.Search.{substr-At}
use h2_server.Multipart.Upload.{
  Part, body, IsUpload, name_at, blank_at, end_at, At-name, At-content, body-filename, body-content,
  body-end,
}
use h2_server.Multipart.Disk.{FileSystem, act_all}
use h2_server.Multipart.Moves.{IsPlain, move_new}

-- The parser once an upload is complete.
abbrev pub after_upload : (ℕ → Bytes) → Part → Parser → Parser
after_upload temporary u p = record p {
  count = p.count + 1;
  current_filename = u.name;
  current_tmp_filename = temporary p.count;
}

module _ (temporary : ℕ → Bytes) (u : Part) (p : Parser) where
  enter_new :
      (buffer : Bytes) (start len : ℕ)
      → find_key (substr buffer start len) p.file_map ≡ none
      → enter_file temporary buffer (some (start, len)) p ≡ record p {
        count = p.count + 1;
        file_map = (substr buffer start len, temporary p.count) ∷ p.file_map;
        current_filename = substr buffer start len;
        current_tmp_filename = temporary p.count;
      }
  unfolding enter_file
  enter_new buffer start len new = rw (new, enter_file) refl

  -- The parser between the first step and the last.
  abbrev entered : Parser
  entered = record (after_upload temporary u p) {
    file_map = (u.name, temporary p.count) ∷ p.file_map;
  }

  enter_named :
      (buffer : Bytes) (start len : ℕ)
      → substr buffer start len ≡ u.name
      → find_key u.name p.file_map ≡ none
      → enter_file temporary buffer (some (start, len)) p ≡ entered
  enter_named buffer start len e new =
      enter_new buffer start len (ap (λ n. find_key n p.file_map) e ∙ new)
      ∙ ap
          (λ (n : Bytes). record p {
            count = p.count + 1;
            file_map = (n, temporary p.count) ∷ p.file_map;
            current_filename = n;
            current_tmp_filename = temporary p.count;
          })
          e

  save_new :
      (buffer : Bytes) (start len : ℕ)
      → substr buffer start len ≡ u.line
      → is_empty (temporary p.count) ≡ false
      → save_content temporary buffer (some (start, len)) entered
        ≡ append_file (temporary p.count) u.line ∷ []
  unfolding save_content
  save_new buffer start len e tmp =
      rw (tmp, save_content) (ap (λ bytes. append_file (temporary p.count) bytes ∷ []) e)

  finish-entered :
      (buffer : Bytes) (range : ℕ × ℕ) (effects : List Effect)
      → finish temporary buffer (some range) entered effects
        ≡ (after_upload temporary u p, effects ++ rename (temporary p.count) u.name ∷ [], true)
  unfolding finish erase
  finish-entered buffer range effects = rw (same_refl u.name, finish, erase) refl

  -- The bytes between the empty line behind the part's head and the next line break, and no others,
  -- are appended to the temporary file, which is then moved to the name that the client gave; the map
  -- is as before.
  pub write-upload :
      IsUpload p.boundary u
      → is_empty p.boundary ≡ false
      → is_empty (temporary p.count) ≡ false
      → find_key u.name p.file_map ≡ none
      → write temporary (body p.boundary u) p ≡ (
        after_upload temporary u p,
        append_file (temporary p.count) u.line ∷ rename (temporary p.count) u.name ∷ [],
        true,
      )
  unfolding write
  write-upload h has_boundary has_tmp new =
      let buffer = body p.boundary u in
      let here = name_at p.boundary u h + 10 in
      let there = blank_at p.boundary u h + 4 in
      let name = substr-At buffer here _ u.name _ (At-name p.boundary u h) (omega arith) in
      let line = substr-At buffer there _ u.line _ (At-content p.boundary u h) (omega arith) in
      let range : ℕ × ℕ = (
        end_at p.boundary u h + h.closed_at,
        length buffer - (end_at p.boundary u h + h.closed_at),
      ) in
      let content : ℕ × ℕ = (there, end_at p.boundary u h - there) in
      rw
        (
          has_boundary,
          body-filename p.boundary u h,
          body-content p.boundary u h,
          body-end p.boundary u h,
          write,
        )
        (ap
            (λ q.
              finish temporary buffer (some range) q
                (save_content temporary buffer (some content) q))
            (enter_named buffer here _ name new)
          ∙ ap (finish temporary buffer (some range) entered) (save_new buffer there _ line has_tmp)
          ∙ finish-entered buffer range (append_file (temporary p.count) u.line ∷ []))

module _ {S : Type 0} (files : FileSystem S) (temporary : ℕ → Bytes) (u : Part) (p : Parser) where
  -- Let a parser have the boundary of an upload that lies in one buffer, no file of that name, and a
  -- temporary name that is not in use, let neither name have a zero byte in it, and let appending to the
  -- temporary file and renaming it succeed. Then `write` reports the upload complete, and afterwards the file
  -- with the name that the client gave holds the bytes up to the first line break behind the part's
  -- head, and no others, whatever it held before; no file has the temporary name, unless it is the
  -- client's, and every other file is as it was.
  pub write-files :
      (s : S) (other : Bytes)
      → IsUpload p.boundary u
      → is_empty p.boundary ≡ false
      → is_empty (temporary p.count) ≡ false
      → IsPlain u.name
      → IsPlain (temporary p.count)
      → find_key u.name p.file_map ≡ none
      → files.content s (temporary p.count) ≡ none
      → files.can_append s (temporary p.count) u.line ≡ true
      → files.can_rename
          (files.act (append_file (temporary p.count) u.line) s)
          (temporary p.count)
          u.name
        ≡ true
      → let (p', effects, done) = write temporary (body p.boundary u) p in
        (done ≡ true)
        × (files.content (act_all files effects s) other ≡ (
            if same u.name other
            then some u.line
            else if same (temporary p.count) other
            then none
            else files.content s other))
  write-files s other h has_boundary has_tmp plain plain_tmp new unused appends renames =
      subst
        (λ (r : Parser × List Effect × Bool).
          (r.2 ≡ true)
          × (files.content (act_all files r.1 s) other ≡ (
              if same u.name other
              then some u.line
              else if same (temporary p.count) other
              then none
              else files.content s other)))
        (sym (write-upload temporary u p h has_boundary has_tmp new))
        (
          refl,
          move_new files s (temporary p.count) u.name u.line other appends renames plain_tmp plain
              unused,
        )
