-- ===== src/CircularQueue/Fifo.antt =====
-- What the queue promises: a first-in first-out list of at most `limit` elements.
use h2_server.Prelude.{
  ℕ, Bool, true, false, not, Option, none, some, List, [], ◌∷◌, ◌++◌, ◌==◌, if◌then◌else◌, length,
}

-- The calls that a client of the queue makes, and what it sees of each.
pub data Op {ℓ} (A : Type ℓ) : Type ℓ where
  push : A → Op A
  pop front is_empty is_full : Op A

pub data Reply {ℓ} (A : Type ℓ) : Type ℓ where
  flag : Bool → Reply A
  item : Option A → Reply A

module _ {ℓ} {A : Type ℓ} where
  abbrev pub head? : List A → Option A
  head? [] = none
  head? (x ∷ xs) = some x

  abbrev pub rest : List A → List A
  rest [] = []
  rest (x ∷ xs) = xs

  abbrev pub none_left : List A → Bool
  none_left [] = true
  none_left (x ∷ xs) = false

  -- One call on a list of at most `limit` elements.
  abbrev pub answer : ℕ → List A → Op A → List A × Reply A
  answer limit xs (push x) =
      if length xs == limit then (xs, flag false) else (xs ++ x ∷ [], flag true)
  answer limit xs pop = (rest xs, flag (not (none_left xs)))
  answer limit xs front = (xs, item (head? xs))
  answer limit xs is_empty = (xs, flag (none_left xs))
  answer limit xs is_full = (xs, flag (length xs == limit))

  abbrev pub answers : ℕ → List A → List (Op A) → List (Reply A)
  answers limit xs [] = []
  answers limit xs (op ∷ ops) =
      let (xs', reply) = answer limit xs op in reply ∷ answers limit xs' ops
