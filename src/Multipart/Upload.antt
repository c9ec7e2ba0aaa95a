-- ===== src/Multipart/Upload.antt =====
-- A file of one form field, whole in one buffer.
use h2_server.Prelude.{
  ℕ, ◌+◌, ◌-◌, ◌≡◌, refl, sym, ap, ◌∙◌, Bytes, bytes, some, ◌++◌, length, drop, append_assoc,
}
use h2_server.Multipart.{find, find_from, crlf, find_filename, find_file_content, find_end_boundary}
use h2_server.Multipart.Search.{IsFirst, At, At-after, find_from-IsFirst}

-- What stands in front of the boundary line, between that line and the file name, in the file name,
-- up to the empty line, up to the next line break, and behind it.
pub record Part : Type 0 where
  pub preamble : Bytes
  pub head : Bytes
  pub name : Bytes
  pub tail : Bytes
  pub line : Bytes
  pub more : Bytes

abbrev pub named : Bytes
named = bytes "filename=\""

abbrev pub quote : Bytes
quote = bytes "\""

abbrev pub blank : Bytes
blank = crlf ++ crlf

-- What follows the file name, and the whole buffer.
abbrev pub rest_of : Part → Bytes
rest_of u = quote ++ (u.tail ++ (blank ++ (u.line ++ (crlf ++ u.more))))

abbrev pub body : Bytes → Part → Bytes
body boundary u = u.preamble ++ ((boundary ++ crlf) ++ (u.head ++ (named ++ (u.name ++ rest_of u))))

-- Each mark stands first where the parser looks for it, and the end boundary follows.
pub record IsUpload (boundary : Bytes) (u : Part) : Type 0 where
  pub boundary_first : IsFirst (boundary ++ crlf) u.preamble
  pub name_first : IsFirst named ((boundary ++ crlf) ++ u.head)
  pub quote_first : IsFirst quote u.name
  pub blank_first : IsFirst blank (quote ++ u.tail)
  pub line_first : IsFirst crlf u.line
  pub closed_at : ℕ
  pub closed : find (boundary ++ bytes "--") (crlf ++ u.more) ≡ some closed_at

-- The steps of `write`, each from what its searches find.
module _ (buffer boundary : Bytes) where
  find_filename-found :
      (p n e : ℕ)
      → find_from (boundary ++ crlf) buffer (some 0) ≡ some p
      → find_from named buffer (some p) ≡ some n
      → find_from quote buffer (some (n + 10)) ≡ some e
      → find_filename buffer boundary ≡ (some (n + 10, e - (n + 10)), some e)
  unfolding find_filename
  find_filename-found p n e hp hn he = rw (hp, hn, he, find_filename) refl

  find_file_content-found :
      (e c f : ℕ)
      → find_from blank buffer (some e) ≡ some c
      → find_from crlf buffer (some (c + 4)) ≡ some f
      → find_file_content buffer (some e) ≡ (some (c + 4, f - (c + 4)), some f)
  unfolding find_file_content
  find_file_content-found e c f hc hf = rw (hc, hf, find_file_content) refl

  find_end_boundary-found :
      (f k : ℕ)
      → find (boundary ++ bytes "--") (drop f buffer) ≡ some k
      → find_end_boundary buffer boundary (some f) ≡ some (f + k, length buffer - (f + k))
  unfolding find_end_boundary find_from
  find_end_boundary-found f k h = rw (h, find_end_boundary) refl

-- Where the marks of an upload stand.
module _ (boundary : Bytes) (u : Part) (h : IsUpload boundary u) where
  abbrev pub line_at : ℕ
  line_at = 0 + length u.preamble

  abbrev pub name_at : ℕ
  name_at = line_at + length ((boundary ++ crlf) ++ u.head)

  abbrev pub quote_at : ℕ
  quote_at = name_at + 10 + length u.name

  abbrev pub blank_at : ℕ
  blank_at = quote_at + length (quote ++ u.tail)

  abbrev pub end_at : ℕ
  end_at = blank_at + 4 + length u.line

  At-line :
      At
        (body boundary u)
        line_at
        ((boundary ++ crlf) ++ (u.head ++ (named ++ (u.name ++ rest_of u))))
  At-line = At-after (body boundary u) 0 u.preamble _ refl

  pub At-name : At (body boundary u) (name_at + 10) (u.name ++ rest_of u)
  At-name = At-after (body boundary u) name_at named (u.name ++ rest_of u) (
      At-after (body boundary u) line_at ((boundary ++ crlf) ++ u.head) _
        (At-line ∙ sym (append_assoc (boundary ++ crlf) u.head _)))

  At-quote : At (body boundary u) quote_at (rest_of u)
  At-quote = At-after (body boundary u) (name_at + 10) u.name (rest_of u) At-name

  pub At-content : At (body boundary u) (blank_at + 4) (u.line ++ (crlf ++ u.more))
  At-content =
      At-after (body boundary u) blank_at blank _
        (At-after (body boundary u) quote_at (quote ++ u.tail) _ At-quote)

  At-end : At (body boundary u) end_at (crlf ++ u.more)
  At-end = At-after (body boundary u) (blank_at + 4) u.line _ At-content

  pub body-filename :
      find_filename (body boundary u) boundary
      ≡ (some (name_at + 10, quote_at - (name_at + 10)), some quote_at)
  body-filename =
      find_filename-found (body boundary u) boundary line_at name_at quote_at
        (find_from-IsFirst (boundary ++ crlf) (body boundary u) 0 u.preamble _ refl
          h.boundary_first)
        (find_from-IsFirst named (body boundary u) line_at ((boundary ++ crlf) ++ u.head) _
          (At-line ∙ sym (append_assoc (boundary ++ crlf) u.head _)) h.name_first)
        (find_from-IsFirst quote (body boundary u) (name_at + 10) u.name _ At-name h.quote_first)

  pub body-content :
      find_file_content (body boundary u) (some quote_at)
      ≡ (some (blank_at + 4, end_at - (blank_at + 4)), some end_at)
  body-content =
      find_file_content-found (body boundary u) boundary quote_at blank_at end_at
        (find_from-IsFirst blank (body boundary u) quote_at (quote ++ u.tail) _ At-quote
          h.blank_first)
        (find_from-IsFirst crlf (body boundary u) (blank_at + 4) u.line _ At-content h.line_first)

  pub body-end :
      find_end_boundary (body boundary u) boundary (some end_at)
      ≡ some (end_at + h.closed_at, length (body boundary u) - (end_at + h.closed_at))
  body-end =
      find_end_boundary-found (body boundary u) boundary end_at h.closed_at
        (ap (find (boundary ++ bytes "--")) At-end ∙ h.closed)
