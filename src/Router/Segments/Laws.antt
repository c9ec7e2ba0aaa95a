-- ===== src/Router/Segments/Laws.antt =====
-- What splitting a path gives: segments that are not empty and hold no slash, and the segments
-- again that a path was joined from.
use h2_server.Prelude.{
  ℕ, zero, suc, ◌≤◌, ◌<◌, ◌≡◌, ◌≢◌, refl, ap, ◌∙◌, inl, inr, Option, none, some, List, [], ◌∷◌,
  ◌++◌, Bytes, ◌==◌, length, All, arith, Option-cases, Bool-cases, ==_iff, subst, replicate,
  append-nil, map, length-append,
}
use h2_server.Router.Segments.{
  skip_slashes, find_slash, segment_at, next_segment, split_from, split_path_segments,
}

abbrev pub NoSlash : Bytes → Type 0
NoSlash = All (λ c. c ≢ b'/')

-- What a segment is: some bytes, none of them a slash.
abbrev pub IsSegment : Bytes → Type 0
IsSegment seg = (seg ≢ []) × NoSlash seg

abbrev StartsWithSlash : Bytes → Type 0
StartsWithSlash [] = ⊥
StartsWithSlash (c ∷ s) = c ≡ b'/'

-- Where the search for a slash stops.
abbrev Found : Bytes → Option (Bytes × Bytes) → Type 0
Found s none = NoSlash s
Found s (some (seg, rest)) = NoSlash seg × (s ≡ seg ++ rest) × StartsWithSlash rest

Found-cons :
    (c : ℕ) (s : Bytes) (r : Option (Bytes × Bytes))
    → c ≢ b'/'
    → Found s r
    → Found (c ∷ s) (elim r [ none ↦ none | some (seg, rest) ↦ some (c ∷ seg, rest) ])
Found-cons c s none ne h = (ne, h)
Found-cons c s (some (seg, rest)) ne (h, e, pos) = ((ne, h), ap (◌∷◌ c) e, pos)

find_slash-Found : (s : Bytes) → Found s (find_slash s)
unfolding find_slash
find_slash-Found [] = tt
find_slash-Found (c ∷ s) = elim (Bool-cases (c == b'/')) [
  | inl here ↦ rw here (tt, refl, (==_iff c b'/').0 here)
  | inr later ↦ rw later (Found-cons c s (find_slash s) (ground arith) (find_slash-Found s))
]

-- The loop skips to a byte that is no slash.
abbrev Head : Bytes → Type 0
Head [] = Unit
Head (c ∷ s) = c ≢ b'/'

skip_slashes-Head : (s : Bytes) → Head (skip_slashes s)
unfolding skip_slashes
skip_slashes-Head [] = tt
skip_slashes-Head (c ∷ s) = ground (arith, skip_slashes-Head s)

-- So the segment that a round cuts off is not empty.
cut-IsSegment :
    (c : ℕ) (s seg rest : Bytes) → c ≢ b'/' → Found (c ∷ s) (some (seg, rest)) → IsSegment seg
cut-IsSegment c s [] [] ne f = elim (f.2) [ ]
cut-IsSegment c s [] (d ∷ rest) ne f = ground arith
cut-IsSegment c s (d ∷ seg) rest ne f = ((λ h. cc h), f.0)

segment_at-IsSegment :
    (left seg : Bytes) (rest : Option Bytes)
    → Head left
    → segment_at left ≡ some (seg, rest)
    → IsSegment seg
unfolding segment_at
segment_at-IsSegment [] seg rest h e = cc
segment_at-IsSegment (c ∷ s) seg rest h e = elim (Option-cases (find_slash (c ∷ s))) [
  | inl last ↦
      let whole = subst (Found (c ∷ s)) last (find_slash-Found (c ∷ s)) in
      let same_segment : c ∷ s ≡ seg = ground arith in
      subst IsSegment same_segment ((λ n. cc n), whole)
  | inr ((found, after), hit) ↦
      let part = subst (Found (c ∷ s)) hit (find_slash-Found (c ∷ s)) in
      let same_segment : found ≡ seg = ground arith in
      subst IsSegment same_segment (cut-IsSegment c s found after h part)
]

-- Every segment is a non-empty text with no slash in it.
split_from-IsSegment : (fuel : ℕ) (uri : Bytes) → All IsSegment (split_from fuel uri)
unfolding split_from next_segment
split_from-IsSegment zero uri = tt
split_from-IsSegment (suc fuel) uri = elim (Option-cases (segment_at (skip_slashes uri))) [
  | inl done ↦ rw (done, All) tt
  | inr ((seg, none), hit) ↦
      rw (hit, All)
        (segment_at-IsSegment (skip_slashes uri) seg none (skip_slashes-Head uri) hit, tt)
  | inr ((seg, some rest), hit) ↦
      rw (hit, All)
        (
          segment_at-IsSegment (skip_slashes uri) seg (some rest) (skip_slashes-Head uri) hit,
          split_from-IsSegment fuel rest,
        )
]

-- Every segment of a path is non-empty and has no slash.
pub split_path_segments-IsSegment : (uri : Bytes) → All IsSegment (split_path_segments uri)
unfolding split_path_segments
split_path_segments-IsSegment uri = split_from-IsSegment (suc (length uri)) uri

-- A path written with at least one slash before each segment and any number behind the last.
abbrev pub join : List (ℕ × Bytes) → ℕ → Bytes
join [] k = replicate k b'/'
join ((n, seg) ∷ parts) k = b'/' ∷ (replicate n b'/' ++ (seg ++ join parts k))

skip-slashes_append : (n : ℕ) (s : Bytes) → skip_slashes (replicate n b'/' ++ s) ≡ skip_slashes s
unfolding skip_slashes
skip-slashes_append zero s = refl
skip-slashes_append (suc n) s = skip-slashes_append n s

find_slash-hit : (seg t : Bytes) → NoSlash seg → find_slash (seg ++ b'/' ∷ t) ≡ some (seg, b'/' ∷ t)
unfolding find_slash
find_slash-hit [] t h = refl
find_slash-hit (c ∷ seg) t h = ground (arith, find_slash-hit seg t h.1)

find_slash-miss : (seg : Bytes) → NoSlash seg → find_slash seg ≡ none
unfolding find_slash
find_slash-miss [] h = refl
find_slash-miss (c ∷ seg) h = ground (arith, find_slash-miss seg h.1)

segment_before :
    (seg t : Bytes) → IsSegment seg → segment_at (seg ++ b'/' ∷ t) ≡ some (seg, some (b'/' ∷ t))
unfolding segment_at
segment_before [] t h = absurd (h.0 refl)
segment_before (c ∷ seg) t h = ground (arith, find_slash-hit (c ∷ seg) t h.1)

segment_last : (seg : Bytes) → IsSegment seg → segment_at seg ≡ some (seg, none)
unfolding segment_at
segment_last [] h = absurd (h.0 refl)
segment_last (c ∷ seg) h = ground (arith, find_slash-miss (c ∷ seg) h.1)

skip-slashes_segment : (seg t : Bytes) → IsSegment seg → skip_slashes (seg ++ t) ≡ seg ++ t
unfolding skip_slashes
skip-slashes_segment [] t h = absurd (h.0 refl)
skip-slashes_segment (c ∷ seg) t h = ground arith

skip-slashes_only : (k : ℕ) → skip_slashes (replicate k b'/') ≡ []
unfolding skip_slashes
skip-slashes_only zero = refl
skip-slashes_only (suc k) = skip-slashes_only k

next_segment-slashes : (k : ℕ) → next_segment (replicate k b'/') ≡ none
unfolding next_segment
next_segment-slashes k = ap segment_at (skip-slashes_only k)

abbrev pub segments_of : List (ℕ × Bytes) → List Bytes
segments_of = map (λ part. part.1)

-- The first round on a joined path cuts off its first segment.
next_segment-join :
    (n : ℕ) (seg t : Bytes)
    → IsSegment seg
    → next_segment (b'/' ∷ (replicate n b'/' ++ (seg ++ t))) ≡ segment_at (seg ++ t)
unfolding next_segment
next_segment-join n seg t h =
    ap segment_at (skip-slashes_append (suc n) (seg ++ t) ∙ skip-slashes_segment seg t h)

split_from-join :
    (fuel : ℕ) (parts : List (ℕ × Bytes)) (k : ℕ)
    → length parts < fuel
    → All IsSegment (segments_of parts)
    → split_from fuel (join parts k) ≡ segments_of parts
unfolding split_from
split_from-join zero parts k lt h = elim lt [ ]
split_from-join (suc fuel) [] k lt h = rw (next_segment-slashes k, split_from)
split_from-join (suc fuel) ((n, seg) ∷ []) zero lt (ok, h) = rw (
  next_segment-join n seg [] ok ∙ ap segment_at (append-nil seg) ∙ segment_last seg ok,
  split_from,
)
split_from-join (suc fuel) ((n, seg) ∷ []) (suc k) lt (ok, h) =
    rw
      (
        next_segment-join n seg (join [] (suc k)) ok ∙ segment_before seg (replicate k b'/') ok,
        split_from,
      )
      (ap (◌∷◌ seg) (split_from-join fuel [] (suc k) (omega arith) h))
split_from-join (suc fuel) ((n, seg) ∷ (m, seg') ∷ parts) k lt (ok, h) =
    rw
      (
        next_segment-join n seg (join ((m, seg') ∷ parts) k) ok
            ∙ segment_before seg (replicate m b'/' ++ (seg' ++ join parts k)) ok,
        split_from,
      )
      (ap (◌∷◌ seg) (split_from-join fuel ((m, seg') ∷ parts) k (omega arith) h))

length-join : (parts : List (ℕ × Bytes)) (k : ℕ) → length parts ≤ length (join parts k)
length-join [] k = omega arith
length-join ((n, seg) ∷ parts) k = omega (
  arith,
  length-append (replicate n b'/') (seg ++ join parts k),
  length-append seg (join parts k),
  length-join parts k,
)

-- However many slashes stand between and behind them, the segments of a path, none empty and none
-- with a slash, are found again.
pub split_path_segments-join :
    (parts : List (ℕ × Bytes)) (k : ℕ)
    → All IsSegment (segments_of parts)
    → split_path_segments (join parts k) ≡ segments_of parts
unfolding split_path_segments
split_path_segments-join parts k h =
    split_from-join (suc (length (join parts k))) parts k (omega (arith, length-join parts k)) h
