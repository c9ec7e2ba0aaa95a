-- ===== src/Multipart/Boundary.antt =====
-- The boundary that `extract_boundary` reads from a content type.
use h2_server.Prelude.{
  ℕ, ◌+◌, ◌-◌, ◌≡◌, refl, ap, ◌∙◌, Bytes, bytes, Bool, true, false, none, some, [], ◌++◌, length,
  arith, drop, length-append, length-drop,
}
use h2_server.Multipart.{is_empty, find, find_from, substr, crlf, Parser, extract_boundary}
use h2_server.Multipart.Search.{IsFirst, At, At-after, find_from-IsFirst, substr-At}

-- How the text behind `boundary=` goes on: to the end, up to a line break, or up to a semicolon with no
-- line break behind.
pub data Ending (b rest : Bytes) : Type 0 where
  at_end :
      find crlf (b ++ rest) ≡ none → find (bytes ";") (b ++ rest) ≡ none → rest ≡ [] → Ending b rest
  at_line_break : (more : Bytes) → IsFirst crlf b → rest ≡ crlf ++ more → Ending b rest
  at_semicolon :
      (more : Bytes)
      → find crlf (b ++ rest) ≡ none
      → IsFirst (bytes ";") b
      → rest ≡ bytes ";" ++ more
      → Ending b rest

-- The call, from what its searches find.
module _ (p : Parser) (text : Bytes) (none_yet : is_empty p.boundary ≡ true)
    (named : is_empty text ≡ false) (found : ℕ)
    (there : find_from (bytes "boundary=") text (some 0) ≡ some found) where
  extract_line :
      (end : ℕ)
      → find_from crlf text (some (found + 9)) ≡ some end
      → extract_boundary text p
        ≡ (record p { boundary = substr text (found + 9) (end - (found + 9)) }, true)
  unfolding extract_boundary
  extract_line end line = rw (none_yet, named, there, line, extract_boundary) refl

  extract_semicolon :
      (end : ℕ)
      → find_from crlf text (some (found + 9)) ≡ none
      → find_from (bytes ";") text (some (found + 9)) ≡ some end
      → extract_boundary text p
        ≡ (record p { boundary = substr text (found + 9) (end - (found + 9)) }, true)
  unfolding extract_boundary
  extract_semicolon end line semicolon =
      rw (none_yet, named, there, line, semicolon, extract_boundary) refl

  extract_rest :
      find_from crlf text (some (found + 9)) ≡ none
      → find_from (bytes ";") text (some (found + 9)) ≡ none
      → extract_boundary text p
        ≡ (record p { boundary = substr text (found + 9) (length text - (found + 9)) }, true)
  unfolding extract_boundary
  extract_rest line semicolon = rw (none_yet, named, there, line, semicolon, extract_boundary) refl

find_from-none :
    (needle text : Bytes) (pos : ℕ) (rest : Bytes)
    → At text pos rest
    → find needle rest ≡ none
    → find_from needle text (some pos) ≡ none
unfolding find_from
find_from-none needle text pos rest at missing =
    let here : find needle (drop pos text) ≡ none = ap (find needle) at ∙ missing in
    rw (here, find_from) refl

module _ (p : Parser) (front b rest : Bytes) where
  -- A parser without a boundary takes it from a content type that names one: the text behind the first
  -- `boundary=`, up to a line break if there is one, else up to a semicolon if there is one, else to
  -- the end.
  pub extract_boundary-Ending :
      is_empty p.boundary ≡ true
      → is_empty (front ++ (bytes "boundary=" ++ (b ++ rest))) ≡ false
      → IsFirst (bytes "boundary=") front
      → Ending b rest
      → extract_boundary (front ++ (bytes "boundary=" ++ (b ++ rest))) p
        ≡ (record p { boundary = b }, true)
  extract_boundary-Ending none_yet named first ending =
      let text = front ++ (bytes "boundary=" ++ (b ++ rest)) in
      let found = 0 + length front in
      let there = find_from-IsFirst (bytes "boundary=") text 0 front (b ++ rest) refl first in
      let from : At text found (bytes "boundary=" ++ (b ++ rest)) = At-after text 0 front _ refl in
      let start : At text (found + 9) (b ++ rest) =
        At-after text found (bytes "boundary=") (b ++ rest) from in
      let read : (len : ℕ)
          → len ≡ length b
          → ◌≡◌ {A = Parser × Bool} (record p { boundary = substr text (found + 9) len }, true)
              (record p { boundary = b }, true) =
        λ len e.
          ap (λ (x : Bytes). (record p { boundary = x }, true))
            (substr-At text (found + 9) len b rest start e) in
      elim ending [
        | at_end no_line no_semicolon ends ↦
            extract_rest p text none_yet named found there
              (find_from-none crlf text (found + 9) (b ++ rest) start no_line)
              (find_from-none (bytes ";") text (found + 9) (b ++ rest) start no_semicolon)
            ∙ read (length text - (found + 9)) (
                omega (
                  arith,
                  ap length start,
                  length-drop (found + 9) text,
                  length-append b rest,
                  ap length ends,
                ))
        | at_line_break more line e ↦
            extract_line p text none_yet named found there (found + 9 + length b)
              (find_from-IsFirst crlf text (found + 9) b more (start ∙ ap (◌++◌ b) e) line)
            ∙ read (found + 9 + length b - (found + 9)) (omega arith)
        | at_semicolon more no_line semicolon e ↦
            extract_semicolon p text none_yet named found there (found + 9 + length b)
              (find_from-none crlf text (found + 9) (b ++ rest) start no_line)
              (find_from-IsFirst (bytes ";") text (found + 9) b more (start ∙ ap (◌++◌ b) e)
                semicolon)
            ∙ read (found + 9 + length b - (found + 9)) (omega arith)
      ]
