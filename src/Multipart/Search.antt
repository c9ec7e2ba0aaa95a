-- ===== src/Multipart/Search.antt =====
-- Searching in a text whose parts are known.
use h2_server.Prelude.{
  ℕ, suc, ◌+◌, ◌≤◌, ◌≡◌, refl, sym, ap, ◌∙◌, Bytes, true, false, some, [], ◌∷◌, ◌++◌, length, take,
  drop, ◌==◌, ◌&&◌, arith, drop_add, append_assoc, length-append, drop-length-append,
  take-length-append,
}
use h2_server.Multipart.{starts_with, find, find_from, substr}

starts_with_self : (needle rest : Bytes) → starts_with needle (needle ++ rest) ≡ true
unfolding starts_with
starts_with_self [] rest = refl
starts_with_self (c ∷ needle) rest = ground (arith, starts_with_self needle rest)

-- A long enough text decides whether it starts with the needle.
starts_with-append :
    (needle text rest : Bytes)
    → length needle ≤ length text
    → starts_with needle (text ++ rest) ≡ starts_with needle text
unfolding starts_with
starts_with-append [] text rest long = refl
starts_with-append (c ∷ needle) [] rest long = absurd (omega arith)
starts_with-append (c ∷ needle) (d ∷ text) rest long =
    ap (λ b. c == d && b) (starts_with-append needle text rest (omega arith))

find-here : (needle text : Bytes) → starts_with needle text ≡ true → find needle text ≡ some 0
unfolding find
find-here needle [] h = rw h refl
find-here needle (c ∷ text) h = rw h refl

find-later :
    (needle : Bytes) (c : ℕ) (text : Bytes) (n : ℕ)
    → starts_with needle (c ∷ text) ≡ false
    → find needle text ≡ some n
    → find needle (c ∷ text) ≡ some (suc n)
unfolding find
find-later needle c text n h e = rw (h, e, find) refl

find-suc :
    (needle : Bytes) (c : ℕ) (text : Bytes) (n : ℕ)
    → find needle (c ∷ text) ≡ some (suc n)
    → (starts_with needle (c ∷ text) ≡ false) × (find needle text ≡ some n)
unfolding find
find-suc needle c text n h = ground arith

-- No needle starts before the end of `text` in `text` followed by the needle.
abbrev pub IsFirst : Bytes → Bytes → Type 0
IsFirst needle text = find needle (text ++ needle) ≡ some (length text)

pub find-IsFirst :
    (needle text rest : Bytes)
    → IsFirst needle text
    → find needle (text ++ (needle ++ rest)) ≡ some (length text)
find-IsFirst needle [] rest h = find-here needle (needle ++ rest) (starts_with_self needle rest)
find-IsFirst needle (c ∷ text) rest h =
    let (away, later) = find-suc needle c (text ++ needle) (length text) h in
    let long : length needle ≤ length (c ∷ (text ++ needle)) =
      omega (arith, length-append text needle) in
    find-later needle c (text ++ (needle ++ rest)) (length text)
      (ap (λ t. starts_with needle (c ∷ t)) (sym (append_assoc text needle rest))
        ∙ starts_with-append needle (c ∷ (text ++ needle)) rest long
        ∙ away)
      (find-IsFirst needle text rest later)

-- The text from `pos` on.
abbrev pub At : Bytes → ℕ → Bytes → Type 0
At buffer pos rest = drop pos buffer ≡ rest

pub At-after :
    (buffer : Bytes) (pos : ℕ) (text rest : Bytes)
    → At buffer pos (text ++ rest)
    → At buffer (pos + length text) rest
At-after buffer pos text rest at =
    drop_add pos (length text) buffer ∙ ap (drop (length text)) at ∙ drop-length-append text rest

pub find_from-IsFirst :
    (needle buffer : Bytes) (pos : ℕ) (text rest : Bytes)
    → At buffer pos (text ++ (needle ++ rest))
    → IsFirst needle text
    → find_from needle buffer (some pos) ≡ some (pos + length text)
unfolding find_from
find_from-IsFirst needle buffer pos text rest at h =
    let found : find needle (drop pos buffer) ≡ some (length text) =
      ap (find needle) at ∙ find-IsFirst needle text rest h in
    rw (found, find_from) refl

pub substr-At :
    (buffer : Bytes) (pos len : ℕ) (text rest : Bytes)
    → At buffer pos (text ++ rest)
    → len ≡ length text
    → substr buffer pos len ≡ text
substr-At buffer pos len text rest at e =
    ap (take len) at ∙ ap (λ (n : ℕ). take n (text ++ rest)) e ∙ take-length-append text rest
