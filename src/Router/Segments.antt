-- ===== src/Router/Segments.antt =====
-- `Router::split_path_segments` of src/router.cc. The position `start` of its loop stands here as
-- the text that is left from there on.
pub mod Laws
use h2_server.Prelude.{
  ℕ, zero, suc, Option, none, some, List, [], ◌∷◌, Bytes, ◌==◌, if◌then◌else◌, length,
}

-- `uri.find_first_not_of('/', start)`
unfoldable pub skip_slashes : Bytes → Bytes
skip_slashes [] = []
skip_slashes (c ∷ s) = if c == b'/' then skip_slashes s else c ∷ s

-- `uri.find('/', start)`: the text before the slash, and the text from the slash on.
unfoldable pub find_slash : Bytes → Option (Bytes × Bytes)
find_slash [] = none
find_slash (c ∷ s) =
    if c == b'/'
    then some ([], c ∷ s)
    else elim (find_slash s) [ none ↦ none | some (seg, rest) ↦ some (c ∷ seg, rest) ]

-- What a round makes of the text from `start` on.
unfoldable pub segment_at : Bytes → Option (Bytes × Option Bytes)
unfolding find_slash
segment_at [] = none
segment_at (c ∷ s) = elim (find_slash (c ∷ s)) [
  | none ↦ some (c ∷ s, none)
  | some (seg, rest) ↦ some (seg, some rest)
]

-- One round of the loop: the segment, and what is left of the text from its slash on; `none` where
-- the loop ends for want of a segment, no rest where it breaks at the last one.
unfoldable pub next_segment : Bytes → Option (Bytes × Option Bytes)
unfolding skip_slashes segment_at
next_segment uri = segment_at (skip_slashes uri)

-- Each round but the last moves `start` forward, so the length of the text is fuel enough.
unfoldable pub split_from : ℕ → Bytes → List Bytes
split_from zero uri = []
split_from (suc fuel) uri = elim (next_segment uri) [
  | none ↦ []
  | some (seg, none) ↦ seg ∷ []
  | some (seg, some rest) ↦ seg ∷ split_from fuel rest
]

unfoldable pub split_path_segments : Bytes → List Bytes
unfolding split_from next_segment
split_path_segments uri = split_from (suc (length uri)) uri
